-- ===== src/Engine/Laws.antt =====
-- What the engine's theorems ask of a game's rules, and facts about the roster.
use terminal_card.Base.{
  ◌∙◌, ℕ, zero, suc, ◌≡◌, refl, inl, inr, some, List, [], ◌∷◌, map, arith, get_elem?, Bool-cases,
  Option-cases, ◌==◌,
}
use terminal_card.Game.{Player, State, Rules, index_of}
use terminal_card.Engine.Leaving.{on_leave, after_removed}

abbrev pub ids : List Player → List ℕ
ids = map (λ p. p.id)

-- The hooks leave the phase to the engine, and a leave hook leaves the seated and the leavers who they are.
pub record KeepsTable {X A E : Type 0} (rules : Rules X A E) : Type 0 where
  pub phase-on_game_start : (s : State X) → (rules.on_game_start s).0.phase ≡ s.phase
  pub phase-apply_action : (s : State X) (a : A) → (rules.apply_action s a).0.phase ≡ s.phase
  pub phase-after_action : (s : State X) (a : A) → (rules.after_action s a).0.phase ≡ s.phase
  pub phase-on_leave : (s : State X) (pid : ℕ) → (on_leave rules s pid).phase ≡ s.phase
  pub phase-after_removed : (s : State X) (i : ℕ) → (after_removed rules s i).phase ≡ s.phase
  pub ids-on_leave : (s : State X) (pid : ℕ) → ids (on_leave rules s pid).players ≡ ids s.players
  pub ids-after_removed :
      (s : State X) (i : ℕ) → ids (after_removed rules s i).players ≡ ids s.players
  pub left-on_leave :
      (s : State X) (pid : ℕ) → ids (on_leave rules s pid).left_players ≡ ids s.left_players
  pub left-after_removed :
      (s : State X) (i : ℕ) → ids (after_removed rules s i).left_players ≡ ids s.left_players

-- The same table by its seats, its leavers and its phase.
pub record SameTable {X : Type 0} (t u : State X) : Type 0 where
  pub same_ids : ids u.players ≡ ids t.players
  pub same_left : u.left_players ≡ t.left_players
  pub same_phase : u.phase ≡ t.phase

module _ {X : Type 0} where
  pub SameTable-refl : (t : State X) → SameTable t t
  SameTable-refl t = record { same_ids = refl; same_left = refl; same_phase = refl }

  pub SameTable-trans : (t u v : State X) → SameTable t u → SameTable u v → SameTable t v
  SameTable-trans t u v a b = record {
    same_ids = b.same_ids ∙ a.same_ids;
    same_left = b.same_left ∙ a.same_left;
    same_phase = b.same_phase ∙ a.same_phase;
  }

pub index_of-get_elem? :
    (pid i : ℕ) (ps : List Player) → index_of pid ps ≡ some i → get_elem? (ids ps) i ≡ some pid
unfolding index_of
index_of-get_elem? pid i [] h = cc
index_of-get_elem? pid i (p ∷ ps) h = elim (Bool-cases (p.id == pid)) [
  | inl here ↦ ground arith
  | inr later ↦ elim (Option-cases (index_of pid ps)) [
    | inl nowhere ↦ ground arith
    | inr (j, found) ↦ ground (arith, index_of-get_elem? pid j ps found)
  ]
]

pub get_elem?-ids :
    (pid i : ℕ) (ps : List Player)
    → get_elem? (ids ps) i ≡ some pid
    → (p : Player) × (get_elem? ps i ≡ some p) × (p.id ≡ pid)
get_elem?-ids pid i [] h = cc
get_elem?-ids pid zero (p ∷ ps) h = (p, refl, ground arith)
get_elem?-ids pid (suc i) (p ∷ ps) h = get_elem?-ids pid i ps h

-- The seat that a removal found is still there once the leave hook has run.
pub seat_found :
    {X A E : Type 0} (rules : Rules X A E)
    → KeepsTable rules
    → (s : State X) (pid i : ℕ) → index_of pid s.players ≡ some i
    → (p : Player) × (get_elem? (on_leave rules s pid).players i ≡ some p) × (p.id ≡ pid)
seat_found rules laws s pid i h =
    get_elem?-ids pid i (on_leave rules s pid).players
      (rw (laws.ids-on_leave s pid) (index_of-get_elem? pid i s.players h))
