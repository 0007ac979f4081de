-- ===== src/Orchestrators/Polling.antt =====
-- What a round of `confirmPublishedSend` keeps.
use rai_flow.Prelude.{String, true, false, ◌==◌}
use rai_flow.Model.{confirmed, send_status_eq}
use rai_flow.Orchestrators.World.{Outside}
use rai_flow.Orchestrators.Ticks.{Callback, mark_confirmed, settle_confirmed, poll}
use rai_flow.Orchestrators.Hoare.{
  Pred, Holds, >>=-Holds, catch-Holds, pure-Holds, read_any-Holds, option-Holds, if-Holds, IsStable,
  ask_any-Holds, IsApart, in_db-Holds, emit-Holds,
}

mark_confirmed-Holds :
    {p : Pred} (o : Outside) (on_confirmed : Callback) (id : String)
    → IsApart p
    → Holds p (mark_confirmed o on_confirmed id) (λ a. p) p
unfolding mark_confirmed
mark_confirmed-Holds o on_confirmed id apart = >>=-Holds (read_any-Holds _) (λ here.
    >>=-Holds (in_db-Holds _ apart)
      (λ send. >>=-Holds (emit-Holds o _ apart) (λ done. in_db-Holds _ apart)))

settle_confirmed-Holds :
    {p : Pred} (o : Outside) (on_confirmed : Callback) (id : String)
    → IsApart p
    → Holds p (settle_confirmed o on_confirmed id) (λ a. p) p
unfolding settle_confirmed
settle_confirmed-Holds {p} o on_confirmed id apart = >>=-Holds (read_any-Holds _) (λ current.
    option-Holds (λ x. p) current (mark_confirmed-Holds o on_confirmed id apart)
      (λ send.
        if-Holds (send.status == confirmed) (λ e. in_db-Holds _ apart)
          (λ e. mark_confirmed-Holds o on_confirmed id apart)))

pub poll-Holds :
    {o : Outside} {p bad : Pred} (on_confirmed : Callback) (id hash : String)
    → IsStable o p
    → IsApart p
    → Holds p (poll o on_confirmed id hash) (λ a. p) bad
unfolding poll
poll-Holds {o} {p} on_confirmed id hash stable apart =
    catch-Holds
      (>>=-Holds (ask_any-Holds _ stable) (λ info.
        option-Holds (λ x. p) info (pure-Holds false (λ w s. s))
          (λ is_confirmed.
            if-Holds is_confirmed
              (λ e.
                >>=-Holds (settle_confirmed-Holds o on_confirmed id apart)
                  (λ done. pure-Holds true (λ w s. s)))
              (λ e. pure-Holds false (λ w s. s)))))
      (λ f. pure-Holds false (λ w s. s))
