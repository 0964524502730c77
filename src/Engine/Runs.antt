-- ===== src/Engine/Runs.antt =====
-- Every history of a table: calls of its methods and halves of expiries, in any order.
use terminal_card.Base.{ℕ, refl, inl, Option, List}
use terminal_card.Base.Int.{ℤ}
use terminal_card.Deck.{Card, Shuffler}
use terminal_card.Game.{Player, Rules}
use terminal_card.Engine.{Engine, new_engine, close}
use terminal_card.Engine.Actions.{submit_action}
use terminal_card.Engine.Leaving.{remove_player}
use terminal_card.Engine.Timeouts.{
  Resolution, resolve_turn_timeout, carry_out, recover_rules_panic, panic_in_timeout,
}
use terminal_card.Engine.Starting.{start}
use terminal_card.Engine.Laws.{KeepsTable}
use terminal_card.Engine.Ending.{ended}
use terminal_card.Engine.Soundness.{
  IsSound, submit_action-IsSound, remove-IsSound, resolve-IsSound, carry_out-IsSound, panic-IsSound,
  timeout_panic-IsSound, start-IsSound, close-IsSound,
}

-- One step under the lock. The second half of an expiry may carry any sequence and resolution. Hooks
-- return, but for TimeoutAction, whose panic ends the lock hold with the miss charged; the panic of the
-- timer's goroutine is recovered in a lock hold of its own.
pub data Step {X A E : Type 0} (rules : Rules X A E) (e : Engine X) : Engine X → Type 0 where
  starts :
      (now : ℤ) (sh : Shuffler) (rand : ℕ → Option ℕ) → Step rules e (start rules now sh rand e).0
  submits : (now : ℤ) (pid : ℕ) (action : A) → Step rules e (submit_action rules now pid action e).0
  removes : (now : ℤ) (pid : ℕ) → Step rules e (remove_player rules now pid e)
  expires : (now : ℤ) (seq : ℕ) → Step rules e (resolve_turn_timeout rules now seq e).0
  settles : (now : ℤ) (seq : ℕ) (r : Resolution A) → Step rules e (carry_out rules now seq r e)
  panics : (now : ℤ) → Step rules e (recover_rules_panic rules now e)
  panics_charged : (now : ℤ) (seq : ℕ) → Step rules e (panic_in_timeout rules now seq e)
  closes : Step rules e (close e)

pub data Reach {X A E : Type 0} (rules : Rules X A E) (e : Engine X) : Engine X → Type 0 where
  here : Reach rules e e
  next : {f g : Engine X} → Reach rules e f → Step rules f g → Reach rules e g

Step-IsSound :
    {X A E : Type 0} (rules : Rules X A E) (laws : KeepsTable rules) {e f : Engine X}
    → Step rules e f
    → IsSound e
    → IsSound f
Step-IsSound rules laws {e = e} (starts now sh rand) h = start-IsSound rules laws now sh rand e h
Step-IsSound rules laws {e = e} (submits now pid action) h =
    submit_action-IsSound rules laws now pid action e h
Step-IsSound rules laws {e = e} (removes now pid) h = remove-IsSound rules laws now pid e h
Step-IsSound rules laws {e = e} (expires now seq) h = resolve-IsSound rules laws now seq e h
Step-IsSound rules laws {e = e} (settles now seq r) h = carry_out-IsSound rules laws now seq r e h
Step-IsSound rules laws {e = e} (panics now) h = panic-IsSound rules laws now e h
Step-IsSound rules laws {e = e} (panics_charged now seq) h =
    timeout_panic-IsSound rules laws now seq e h
Step-IsSound rules laws {e = e} closes h = close-IsSound e h

-- Whatever calls and expiries interleave from a sound table on: the end of the game is announced once
-- if the game is finished and never before, a timer is armed only for the present turn of an open
-- table in play, and while the game is in play the cursor names a seat if one is left.
pub Reach-IsSound :
    {X A E : Type 0} (rules : Rules X A E) (laws : KeepsTable rules) {e f : Engine X}
    → IsSound e
    → Reach rules e f
    → IsSound f
Reach-IsSound rules laws h here = h
Reach-IsSound rules laws h (next r st) = Step-IsSound rules laws st (Reach-IsSound rules laws h r)

-- In every history of a new table, calls and halves of expiries in any order, under rules that
-- keep the table: the end of the game is announced once if the game is finished and not before, a
-- timer is armed only for the present turn of an open table in play, and while the game is in
-- play the cursor names a seat, if one is left.
pub Reach-new_engine :
    {X A E : Type 0} (rules : Rules X A E) (laws : KeepsTable rules)
    → (x : X) (players : List Player) (cards : List Card) (timeout : ℤ) {f : Engine X}
    → Reach rules (new_engine x players cards timeout) f
    → IsSound f
unfolding new_engine ended
Reach-new_engine rules laws x players cards timeout r =
    Reach-IsSound rules laws
      (record { orderly = record { ended_once = refl; clock = inl refl }; turn = inl refl }) r
