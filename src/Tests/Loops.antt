-- ===== src/Tests/Loops.antt =====
-- Runs of the table of listeners.
use webserv_team.Base.{refl, inl, none}
use webserv_team.Multiplexer.{client_at, add_listener}
use webserv_team.Multiplexer.Refines.{Registry, adds, Refines}
use webserv_team.Multiplexer.Covered.{IsCovered, Step, here, next, Reach-IsCovered}
use webserv_team.Client.{both}
use webserv_team.Tests.Machines.{World, toy, toy-IsEpoll, idle_machine}

abbrev nobody : Registry
nobody j = none

idle-IsCovered : IsCovered (λ j (w : World). w.watched j) idle_machine
idle-IsCovered = record { sorted = tt; covers = λ j. inl refl }

Reach-IsCovered_example :
    IsCovered (λ j (w : World). w.watched j) (add_listener toy (client_at 0) 4 both idle_machine).1
Reach-IsCovered_example =
    Reach-IsCovered toy-IsEpoll idle-IsCovered (next here (Step.adds (client_at 0) 4 both))
