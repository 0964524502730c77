-- ===== src/Lobby/Seating.antt =====
-- Lobby: nobody is seated twice.
use terminal_card.Base.{ℕ, zero, suc, ◌≡◌, refl, false, ◌||◌, List, [], ◌∷◌, ◌++◌, arith, erase_at}
use terminal_card.Game.{Player, player_equal}
use terminal_card.Lobby.{contains_player}

-- No two seats hold the same player.
abbrev pub IsSeatedOnce : List Player → Type 0
IsSeatedOnce [] = Unit
IsSeatedOnce (p ∷ ps) = (contains_player p ps ≡ false) × IsSeatedOnce ps

player_equal_sym : (p q : Player) → player_equal p q ≡ player_equal q p
unfolding player_equal
player_equal_sym p q = ground arith

contains_player-append :
    (g p : Player) (ps : List Player)
    → contains_player g (ps ++ p ∷ []) ≡ (contains_player g ps || player_equal p g)
unfolding contains_player
contains_player-append g p [] = ground arith
contains_player-append g p (q ∷ qs) = ground (arith, contains_player-append g p qs)

pub append-IsSeatedOnce :
    (ps : List Player) (p : Player)
    → IsSeatedOnce ps
    → contains_player p ps ≡ false
    → IsSeatedOnce (ps ++ p ∷ [])
unfolding contains_player
append-IsSeatedOnce [] p h new = (refl, tt)
append-IsSeatedOnce (q ∷ qs) p h new = (
  ground (arith, h.0, contains_player-append q p qs, player_equal_sym p q),
  append-IsSeatedOnce qs p h.1 (ground arith),
)

contains_player-erase_at :
    (g : Player) (i : ℕ) (ps : List Player)
    → contains_player g ps ≡ false
    → contains_player g (erase_at i ps) ≡ false
unfolding contains_player
contains_player-erase_at g i [] h = h
contains_player-erase_at g zero (q ∷ qs) h = ground arith
contains_player-erase_at g (suc i) (q ∷ qs) h = ground (arith, contains_player-erase_at g i qs)

pub erase_at-IsSeatedOnce :
    (i : ℕ) (ps : List Player) → IsSeatedOnce ps → IsSeatedOnce (erase_at i ps)
erase_at-IsSeatedOnce i [] h = h
erase_at-IsSeatedOnce zero (q ∷ qs) h = h.1
erase_at-IsSeatedOnce (suc i) (q ∷ qs) h =
    (contains_player-erase_at q i qs h.0, erase_at-IsSeatedOnce i qs h.1)
