-- ===== src/Hearts/Passing.antt =====
-- Hearts: passing loses no card.
use terminal_card.Base.{ℕ, suc, ◌+◌, ◌-◌, ◌≡◌, ◌<◌, ◌≤◌, refl, List, [], ◌∷◌, arith, length, ◌∙◌}
use native.Mathlib.Nat.{mod-lt}
use terminal_card.Deck.{Card}
use terminal_card.Deck.Bag.{count}
use terminal_card.Game.{Player}
use terminal_card.Game.Cards.{held, append_hand, held-append_hand, length-append_hand}
use terminal_card.Hearts.{State, PassDirection, get_nil}
use terminal_card.Hearts.Tricks.{pass_recipient, pass_from, apply_all_passes}

pass_recipient-lt : (i n : ℕ) (dir : PassDirection) → i < n → pass_recipient i dir n < n
unfolding pass_recipient
pass_recipient-lt i n PassDirection.pass_left h = mod-lt (i + 1) (omega arith)
pass_recipient-lt i n PassDirection.pass_right h = mod-lt (i + n - 1) (omega arith)
pass_recipient-lt i n PassDirection.pass_across h = mod-lt (i + 2) (omega arith)
pass_recipient-lt i n PassDirection.pass_none h = h

-- How often the players have set a card aside to pass.
unfoldable pub pending_count : Card → List Player → State → ℕ
pending_count c [] x = 0
pending_count c (p ∷ ps) x = count c (get_nil [] p.id x.pending_passes) + pending_count c ps x

pass_from-held :
    (c : Card) (n i : ℕ) (ps : List Player) (x : State) (table : List Player)
    → length table ≡ n
    → i + length ps ≤ n
    → held c (pass_from n i ps x table) ≡ held c table + pending_count c ps x
unfolding pass_from pending_count
pass_from-held c n i [] x table size fits = omega arith
pass_from-held c n i (p ∷ ps) x table size fits =
    let cards = get_nil [] p.id x.pending_passes in
    let to = pass_recipient i x.pass_direction n in
    let lt = pass_recipient-lt i n x.pass_direction (omega arith) in
    omega (
      arith,
      pass_from-held c n (suc i) ps x (append_hand to cards table)
          (length-append_hand to cards table ∙ size) (omega arith),
      held-append_hand c to cards table (omega (arith, lt)),
    )

-- Once everybody has passed, the hands hold each card as often as before, and as often again as it was
-- set aside: every passed card reaches a seat of the table, in each direction.
pub apply_all_passes-held :
    (c : Card) (ps : List Player) (x : State)
    → held c (apply_all_passes ps x) ≡ held c ps + pending_count c ps x
unfolding apply_all_passes
apply_all_passes-held c ps x = pass_from-held c (length ps) 0 ps x ps refl (omega arith)
