-- ===== src/Client/Script/Collects.antt =====
-- What the client makes of the whole output of a script.
use mathlib.Core.Path.{subst}
use mathlib.Core.List.{append_assoc, append-nil}
use webserv_team.Base.{
  ℕ, zero, suc, ◌≤◌, ◌≡◌, refl, sym, ap, ◌∙◌, inl, inr, Bool, true, false, not, none, some, [], ◌∷◌,
  ◌++◌, arith, Bool-cases, Bytes, length, is_empty, length-append,
}
use webserv_team.Response.{ResponseBuilder}
use webserv_team.Response.Pages.{include_required_headers}
use webserv_team.Response.Build.{generate_response_string}
use webserv_team.Kernel.{Events, Kernel, IsPipe}
use webserv_team.Multiplexer.{Machine}
use webserv_team.Cgi.{process_cgi_output}
use webserv_team.Cgi.Process.{CgiProcess, readable}
use webserv_team.Client.{Reaction, reacts, crashes, hangs, ◌>>=◌, Client}
use webserv_team.Client.Script.{
  reap, on_cgi_complete, finalize_cgi, read_output, on_hang_up, on_error, on_script_event,
}

-- The event that tells that the script has exited: `EPOLLHUP`, and `EPOLLIN` where something is left
-- in the pipe.
abbrev pub exit_event : Bool → Events
exit_event left = record { input = left; output = false; hang_up = true; error = false }

-- The events of a pipe that holds the whole output. There is time for `n` of them before the script
-- exits: each is `EPOLLIN` alone, and there is none where the pipe is empty. Then comes the event of
-- the exit.
unfoldable pub script_events :
    {W : Type 0}
    → Kernel W
    → (ℕ → W → Bytes)
    → ℕ
    → ℕ
    → Client
    → Machine W
    → Reaction (Client × Machine W)
script_events k unread zero fd c m =
    on_script_event k fd (exit_event (not (is_empty (unread fd m.world)))) c m
script_events k unread (suc n) fd c m = elim (is_empty (unread fd m.world)) [
  | true ↦ script_events k unread n fd c m
  | false ↦ do (c', m') ← on_script_event k fd readable c m; script_events k unread n fd c' m'
]

-- The client has the response that is made of an output ready.
abbrev pub IsComplete :
    {W : Type 0} → Kernel W → Bytes → ResponseBuilder → Reaction (Client × Machine W) → Type 0
IsComplete k output r crashes = ⊥
IsComplete k output r hangs = ⊥
IsComplete {W = W} k output r (reacts (c, m)) =
    (c.response_ready ≡ true)
    × ((c.waiting_for_cgi ≡ false)
        × ((w : W) × (c.response_buffer
              ≡ generate_response_string
                  (include_required_headers k.os w (process_cgi_output output r)))))

-- The client has the response ready that is made of a beginning of an output, but not of all of it.
abbrev pub IsCut :
    {W : Type 0} → Kernel W → Bytes → ResponseBuilder → Reaction (Client × Machine W) → Type 0
IsCut k whole r run =
    (output : Bytes) × ((lost : Bytes) × ((output ++ lost ≡ whole)
        × ((is_empty lost ≡ false) × IsComplete k output r run)))

append_empty : (a u : Bytes) → is_empty u ≡ true → a ≡ a ++ u
append_empty a [] e = sym (append-nil a)
append_empty a (x ∷ u) e = absurd (ground arith)

rest_shorter :
    (n : ℕ) (g v u : Bytes) → u ≡ g ++ v → is_empty g ≡ false → length u ≤ suc n → length v ≤ n
rest_shorter n [] v u e full le = absurd (ground arith)
rest_shorter n (x ∷ g) v u e full le = ground (arith, ap length e, length-append (x ∷ g) v)

empty_short : (u : Bytes) (n : ℕ) → is_empty u ≡ true → length u ≤ n
empty_short [] n e = omega arith
empty_short (x ∷ u) n e = absurd (ground arith)

append_full : (g u : Bytes) → is_empty u ≡ false → is_empty (g ++ u) ≡ false
append_full [] u e = e
append_full (x ∷ g) u e = refl

none_left : (u : Bytes) → length u ≤ 0 → is_empty u ≡ true
none_left [] le = refl
none_left (x ∷ u) le = absurd (omega arith)

module _ {W : Type 0} {k : Kernel W} {unread : ℕ → W → Bytes} (pipe : IsPipe k unread) where
  reads_more :
      (fd : ℕ) (p : CgiProcess) (c : Client) (m : Machine W)
      → c.pending_cgi ≡ some p
      → p.output_fd ≡ some fd
      → is_empty (unread fd m.world) ≡ false
      → on_script_event k fd readable c m
        ≡ reacts (
          record c {
            pending_cgi = some (record p { cgi_output = p.cgi_output ++ pipe.got fd m.world });
          },
          record m { world = (k.read fd 1023 m.world).1 },
        )
  unfolding on_script_event read_output on_hang_up on_error
  reads_more fd p c m pending open_fd more =
      ground (arith, pipe.reads fd m.world, pipe.goes_on fd m.world)

  -- What `finalizeCGI` leaves, for a handler with this output.
  abbrev ended : CgiProcess → Bytes → ResponseBuilder → Client → Machine W → Client × Machine W
  ended p output r c m =
      on_cgi_complete k
        (record p { cgi_output = output; output_fd = none; pid = none; is_completed = true })
        (process_cgi_output output r) c (reap k (record p { cgi_output = output }) m)

  ended-IsComplete :
      (p : CgiProcess) (output : Bytes) (r : ResponseBuilder) (c : Client) (m : Machine W)
      (run : Reaction (Client × Machine W))
      → run ≡ reacts (ended p output r c m)
      → IsComplete k output r run
  unfolding on_cgi_complete
  ended-IsComplete p output r c m run e =
      subst (IsComplete k output r) (sym e)
        (refl, (refl, ((reap k (record p { cgi_output = output }) m).world, refl)))

  exits_read :
      (fd : ℕ) (p : CgiProcess) (r : ResponseBuilder) (c : Client) (m : Machine W)
      → c.pending_cgi ≡ some p
      → p.output_fd ≡ some fd
      → c.is_shared ≡ true
      → c.response_builder ≡ some r
      → is_empty (unread fd m.world) ≡ true
      → script_events k unread 0 fd c m ≡ reacts (ended p p.cgi_output r c m)
  unfolding script_events on_script_event read_output finalize_cgi on_hang_up on_error
  exits_read fd p r c m pending open_fd shared is_r done = ground arith

  exits_unread :
      (fd : ℕ) (p : CgiProcess) (r : ResponseBuilder) (c : Client) (m : Machine W)
      → c.pending_cgi ≡ some p
      → p.output_fd ≡ some fd
      → c.is_shared ≡ true
      → c.response_builder ≡ some r
      → is_empty (unread fd m.world) ≡ false
      → script_events k unread 0 fd c m
        ≡ reacts (
            ended p
              (p.cgi_output ++ pipe.got fd m.world)
              r
              (record c {
                pending_cgi = some (record p { cgi_output = p.cgi_output ++ pipe.got fd m.world });
              })
              (record m { world = (k.read fd 1023 m.world).1 }))
  unfolding script_events on_script_event read_output finalize_cgi on_hang_up on_error
  exits_unread fd p r c m pending open_fd shared is_r more =
      ground (arith, pipe.reads fd m.world, pipe.goes_on fd m.world)

  empty_goes_on :
      (n fd : ℕ) (c : Client) (m : Machine W)
      → is_empty (unread fd m.world) ≡ true
      → script_events k unread (suc n) fd c m ≡ script_events k unread n fd c m
  unfolding script_events
  empty_goes_on n fd c m done = ground arith

  full_goes_on :
      (n fd : ℕ) (c : Client) (m : Machine W) (x : Client × Machine W)
      → is_empty (unread fd m.world) ≡ false
      → on_script_event k fd readable c m ≡ reacts x
      → script_events k unread (suc n) fd c m ≡ script_events k unread n fd x.0 x.1
  unfolding script_events
  full_goes_on n fd c m x more e = ground (arith, e)

  -- A script that exits once its output has been read: the output is in the pipe, each event reads some
  -- of it (`EPOLLIN` alone), there is time for as many events as bytes are left, and then the exit is
  -- told by `EPOLLHUP` alone. The response that the client then has ready is the one that
  -- `processCGIOutput` makes of all that the script has written, in its order, and the client waits no
  -- longer. What is asked is that the client has the handler of the script pending and the builder that
  -- the handler points to.
  pub script_events-IsComplete :
      (n fd : ℕ) (p : CgiProcess) (r : ResponseBuilder) (c : Client) (m : Machine W)
      → c.pending_cgi ≡ some p
      → p.output_fd ≡ some fd
      → c.is_shared ≡ true
      → c.response_builder ≡ some r
      → length (unread fd m.world) ≤ n
      → IsComplete k (p.cgi_output ++ unread fd m.world) r (script_events k unread n fd c m)
  script_events-IsComplete zero fd p r c m pending open_fd shared is_r le =
      let done = none_left (unread fd m.world) le in
      subst (λ output. IsComplete k output r (script_events k unread 0 fd c m))
        (append_empty p.cgi_output (unread fd m.world) done)
        (ended-IsComplete p p.cgi_output r c m _
          (exits_read fd p r c m pending open_fd shared is_r done))
  script_events-IsComplete (suc n) fd p r c m pending open_fd shared is_r le =
      elim (Bool-cases (is_empty (unread fd m.world))) [
        | inl done ↦
            let few : length (unread fd m.world) ≤ n = empty_short (unread fd m.world) n done in
            subst (IsComplete k (p.cgi_output ++ unread fd m.world) r)
              (sym (empty_goes_on n fd c m done))
              (script_events-IsComplete n fd p r c m pending open_fd shared is_r few)
        | inr more ↦
            let p' = record p { cgi_output = p.cgi_output ++ pipe.got fd m.world } in
            let c' = record c { pending_cgi = some p' } in
            let m' = record m { world = (k.read fd 1023 m.world).1 } in
            let run =
              full_goes_on n fd c m (c', m') more (reads_more fd p c m pending open_fd more) in
            let ih = script_events-IsComplete n fd p' r c' m' refl open_fd shared is_r (
              rest_shorter n (pipe.got fd m.world) _ (unread fd m.world) (pipe.leaves fd m.world)
                (pipe.goes_on fd m.world ∙ more) le) in
            let output : (p.cgi_output ++ pipe.got fd m.world) ++ unread fd m'.world
                ≡ p.cgi_output ++ unread fd m.world =
              append_assoc p.cgi_output (pipe.got fd m.world) (unread fd m'.world)
              ∙ ap (λ x. p.cgi_output ++ x) (sym (pipe.leaves fd m.world)) in
            subst (λ output. IsComplete k output r (script_events k unread (suc n) fd c m)) output
              (subst (IsComplete k (p'.cgi_output ++ unread fd m'.world) r) (sym run) ih)
      ]

  -- A script that exits while one read does not empty the pipe: the output in the response is cut. The
  -- response that the client then has ready is the one that `processCGIOutput` makes of a beginning of
  -- what the script has written, and what follows it is not empty: the event of the exit (`EPOLLIN` and
  -- `EPOLLHUP`) reads once, and `EPOLLHUP` ends the handler. What is asked is that the client has the
  -- handler of the script pending and the builder that the handler points to.
  pub script_events-IsCut :
      (fd : ℕ) (p : CgiProcess) (r : ResponseBuilder) (c : Client) (m : Machine W)
      → c.pending_cgi ≡ some p
      → p.output_fd ≡ some fd
      → c.is_shared ≡ true
      → c.response_builder ≡ some r
      → is_empty (unread fd (k.read fd 1023 m.world).1) ≡ false
      → IsCut k (p.cgi_output ++ unread fd m.world) r (script_events k unread 0 fd c m)
  script_events-IsCut fd p r c m pending open_fd shared is_r lost =
      let got = pipe.got fd m.world in
      let left = unread fd (k.read fd 1023 m.world).1 in
      let more : is_empty (unread fd m.world) ≡ false =
        ap is_empty (pipe.leaves fd m.world) ∙ append_full got left lost in
      let joined : (p.cgi_output ++ got) ++ left ≡ p.cgi_output ++ unread fd m.world =
        append_assoc p.cgi_output got left
        ∙ ap (λ x. p.cgi_output ++ x) (sym (pipe.leaves fd m.world)) in
      (
        p.cgi_output ++ got,
        (
          left,
          (
            joined,
            (
              lost,
              ended-IsComplete p (p.cgi_output ++ got) r _ _ _
                  (exits_unread fd p r c m pending open_fd shared is_r more),
            ),
          ),
        ),
      )
