-- ===== src/Client/Sending/Delivers.antt =====
-- What reaches the peer of a response.
use mathlib.Core.Path.{subst}
use mathlib.Core.List.{append_assoc}
use webserv_team.Base.{
  ℕ, zero, suc, ◌≤◌, ◌<◌, ◌≡◌, refl, sym, ap, ◌∙◌, inl, inr, true, false, none, some, [], ◌∷◌, ◌++◌,
  arith, ltb, Bool-cases, Bytes, length, is_empty, take, drop, length-drop, take-append-drop,
  take_all,
}
use webserv_team.Kernel.{Kernel, IsWire}
use webserv_team.Multiplexer.{Machine}
use webserv_team.Client.{Client, terminate, update_activity, has_time_out}
use webserv_team.Client.Sending.{
  is_response_ready, send_response_chunk, should_keep_alive, drop_failed_parser, finalize_response,
  handle_response,
}
use webserv_team.Client.Wire.{terminate-wire}

-- The events of a socket that takes bytes, one after the other.
unfoldable pub handle_responses :
    {W : Type 0} → Kernel W → ℕ → Client → Machine W → Client × Machine W
handle_responses k zero c m = (c, m)
handle_responses k (suc n) c m = let (c', m') = handle_response k c m in handle_responses k n c' m'

handle_responses_idle :
    {W : Type 0} (k : Kernel W) (n : ℕ) (c : Client) (m : Machine W)
    → is_response_ready c ≡ false
    → handle_responses k n c m ≡ (c, m)
unfolding handle_responses handle_response
handle_responses_idle k zero c m idle = refl
handle_responses_idle k (suc n) c m idle = ground (arith, handle_responses_idle k n c m idle)

next_response :
    {W : Type 0} (k : Kernel W) (n : ℕ) (c : Client) (m : Machine W) {x : Client × Machine W}
    → handle_response k c m ≡ x
    → handle_responses k (suc n) c m ≡ handle_responses k n x.0 x.1
unfolding handle_responses
next_response k n c m e = ap (λ x. handle_responses k n x.0 x.1) e

length_full : (s : Bytes) → is_empty s ≡ false → ¬ length s ≤ 0
length_full [] e = absurd (ground arith)
length_full (x ∷ s) e = λ le. omega arith

rest_full : (n : ℕ) (s : Bytes) → n < length s → is_empty (drop n s) ≡ false
rest_full zero [] lt = absurd (omega arith)
rest_full (suc n) [] lt = absurd (omega arith)
rest_full zero (x ∷ s) lt = refl
rest_full (suc n) (x ∷ s) lt = rest_full n s (omega arith)

just_active :
    {W : Type 0} (k : Kernel W) (c : Client) (m : Machine W)
    → c.last_activity ≡ k.now m.world
    → has_time_out k m c ≡ false
unfolding has_time_out
just_active k c m e = ground arith

-- What a run of events leaves of a response that `c` had ready: `wire` has got it whole.
abbrev pub IsDelivered :
    {W : Type 0} → (ℕ → W → Bytes) → Client → Machine W → Client × Machine W → Type 0
IsDelivered wire c m (c', m') =
    (wire c.peer_socket_fd m'.world ≡ wire c.peer_socket_fd m.world ++ c.response_buffer)
    × ((c'.response_ready ≡ false) × (c'.is_started ≡ should_keep_alive c))

module _ {W : Type 0} {k : Kernel W} {wire : ℕ → W → Bytes} (is_wire : IsWire k wire) where
  terminate_stops : (c : Client) (m : Machine W) → (terminate k c m).0.is_started ≡ false
  unfolding terminate
  terminate_stops c m = ground arith

  terminate_clears :
      (c : Client) (m : Machine W)
      → c.response_ready ≡ false
      → (terminate k c m).0.response_ready ≡ false
  unfolding terminate
  terminate_clears c m h = ground arith

  -- An event that sends a part.
  sends_part :
      (c : Client) (m : Machine W)
      → is_response_ready c ≡ true
      → has_time_out k m c ≡ false
      → 0 < (k.send c.peer_socket_fd c.response_buffer m.world).0
      → (k.send c.peer_socket_fd c.response_buffer m.world).0 < length c.response_buffer
      → handle_response k c m ≡ (
        record c {
          last_activity = k.now (k.send c.peer_socket_fd c.response_buffer m.world).1;
          response_buffer =
              drop (k.send c.peer_socket_fd c.response_buffer m.world).0 c.response_buffer;
        },
        record m { world = (k.send c.peer_socket_fd c.response_buffer m.world).1 },
      )
  unfolding handle_response send_response_chunk update_activity
  sends_part c m ready early some_sent part =
      let (sent, w) = k.send c.peer_socket_fd c.response_buffer m.world in
      ground (arith, rest_full sent c.response_buffer part)

  -- An event that sends the rest.
  sends_rest :
      (c : Client) (m : Machine W)
      → is_response_ready c ≡ true
      → has_time_out k m c ≡ false
      → 0 < (k.send c.peer_socket_fd c.response_buffer m.world).0
      → length c.response_buffer ≤ (k.send c.peer_socket_fd c.response_buffer m.world).0
      → handle_response k c m
        ≡ finalize_response k
            (record c {
              last_activity = k.now (k.send c.peer_socket_fd c.response_buffer m.world).1;
              response_buffer = [];
            })
            (record m { world = (k.send c.peer_socket_fd c.response_buffer m.world).1 })
  unfolding handle_response send_response_chunk update_activity
  sends_rest c m ready early some_sent whole = ground arith

  -- What the end of a response leaves.
  finalize_response_leaves :
      (c : Client) (m : Machine W) (j : ℕ)
      → c.is_started ≡ true
      → (wire j (finalize_response k c m).1.world ≡ wire j m.world)
        × (((finalize_response k c m).0.response_ready ≡ false)
            × ((finalize_response k c m).0.is_started ≡ should_keep_alive c))
  unfolding finalize_response drop_failed_parser
  finalize_response_leaves c m j started =
      let c' = record c {
        response_ready = false;
        response_builder = none;
        is_shared = elim c.response_builder [ none ↦ c.is_shared | some _ ↦ false ];
      } in
      ground
        (arith, terminate-wire is_wire c' j m, terminate_stops c' m, terminate_clears c' m refl)

  deliver_rest :
      (n : ℕ) (c : Client) (m : Machine W)
      → c.is_started ≡ true
      → is_response_ready c ≡ true
      → has_time_out k m c ≡ false
      → 0 < (k.send c.peer_socket_fd c.response_buffer m.world).0
      → length c.response_buffer ≤ (k.send c.peer_socket_fd c.response_buffer m.world).0
      → IsDelivered wire c m (handle_responses k (suc n) c m)
  unfolding handle_responses is_response_ready should_keep_alive
  deliver_rest n c m started ready early some_sent whole =
      let (sent, w) = k.send c.peer_socket_fd c.response_buffer m.world in
      let c' = record c { last_activity = k.now w; response_buffer = [] } in
      let m' = record m { world = w } in
      let (c'', m'') = finalize_response k c' m' in
      let left = finalize_response_leaves c' m' c.peer_socket_fd started in
      let idle : is_response_ready c'' ≡ false = ground (arith, left.1.0) in
      let run =
        next_response k n c m (sends_rest c m ready early some_sent whole)
        ∙ handle_responses_idle k n c'' m'' idle in
      subst (IsDelivered wire c m) (sym run) (
        ground (
          arith,
          left.0,
          is_wire.sends c.peer_socket_fd c.response_buffer m.world,
          take_all sent c.response_buffer,
        ),
        left.1,
      )

  ready_full : (c : Client) → is_response_ready c ≡ true → is_empty c.response_buffer ≡ false
  unfolding is_response_ready
  ready_full c ready = ground arith

  ready_long : (c : Client) → is_response_ready c ≡ true → ¬ length c.response_buffer ≤ 0
  unfolding is_response_ready
  ready_long c ready le = length_full c.response_buffer (ready_full c ready) le

  -- Where a socket takes at least one byte of every text, as many events as the response has bytes send
  -- it whole: the peer has got exactly the bytes of the response behind those of before, no response is
  -- ready any more, and the client stays connected exactly if the request does not ask to close. What
  -- is asked of the client is that it is connected, has a response ready, and is not timed out.
  pub handle_responses-IsDelivered :
      ((fd : ℕ) (text : Bytes) (w : W) → is_empty text ≡ false → 0 < (k.send fd text w).0)
      → (n : ℕ) (c : Client) (m : Machine W) → c.is_started ≡ true
      → is_response_ready c ≡ true
      → has_time_out k m c ≡ false
      → length c.response_buffer ≤ n
      → IsDelivered wire c m (handle_responses k n c m)
  unfolding handle_responses is_response_ready should_keep_alive
  handle_responses-IsDelivered takes zero c m started ready early le =
      absurd (ready_long c ready le)
  handle_responses-IsDelivered takes (suc n) c m started ready early le =
      let (sent, w) = k.send c.peer_socket_fd c.response_buffer m.world in
      let some_sent = takes c.peer_socket_fd c.response_buffer m.world (ready_full c ready) in
      let c' = record c {
        last_activity = k.now w;
        response_buffer = drop sent c.response_buffer;
      } in
      let m' = record m { world = w } in
      elim (Bool-cases (ltb sent (length c.response_buffer))) [
        | inr whole ↦ deliver_rest n c m started ready early some_sent (ground arith)
        | inl part ↦
            let rest = drop sent c.response_buffer in
            let full : is_response_ready c' ≡ true =
              ground (arith, rest_full sent c.response_buffer) in
            let shorter : length rest ≤ n = omega (arith, length-drop sent c.response_buffer) in
            let ih =
              handle_responses-IsDelivered takes n c' m' started full (just_active k c' m' refl)
                shorter in
            subst (IsDelivered wire c m)
              (sym (next_response k n c m (sends_part c m ready early some_sent (ground arith))))
              (
                ih.0
                    ∙ (ap (λ x. x ++ rest)
                          (is_wire.sends c.peer_socket_fd c.response_buffer m.world)
                        ∙ (append_assoc (wire c.peer_socket_fd m.world)
                              (take sent c.response_buffer) rest
                            ∙ ap (λ x. wire c.peer_socket_fd m.world ++ x)
                                (take-append-drop sent c.response_buffer))),
                ih.1,
              )
      ]
