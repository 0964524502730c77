-- ===== src/Hearts/Legal.antt =====
-- Hearts: a player who holds a card can always play one.
use terminal_card.Base.{
  inl, inr, ℕ, ◌≡◌, ◌<◌, refl, Bool, true, false, ◌||◌, not, none, some, List, [], ◌∷◌, ◌==◌, arith,
  if◌then◌else◌, length, Bool-cases, Option-cases,
}
use terminal_card.Deck.{Card, card_eq, contains_card, clubs}
use terminal_card.Game.{Player}
use terminal_card.Hearts.{
  State, two_of_clubs, leading_trick, hand_has_suit, has_other_than_hearts, only_hearts,
  is_penalty_card, has_non_penalty_card, validate_play_card, is_legal, first_legal_from,
  first_legal_card,
}

-- The first trick is led with the two of clubs: its leader holds it, and the others follow clubs.
unfoldable pub is_opening_sound : State → List Card → Bool
is_opening_sound x hand =
    not (x.tricks_played == 0)
    || (if leading_trick x then contains_card two_of_clubs hand else x.led_suit == clubs)

is_legal-none :
    (x : State) (hand : List Card) (c : Card)
    → is_legal x hand c ≡ true
    → validate_play_card x hand c ≡ none
unfolding is_legal
is_legal-none x hand c h = elim (Option-cases (validate_play_card x hand c)) [
  | inl ok ↦ ok
  | inr (e, refused) ↦ absurd (ground arith)
]

none-is_legal :
    (x : State) (hand : List Card) (c : Card)
    → validate_play_card x hand c ≡ none
    → is_legal x hand c ≡ true
unfolding is_legal
none-is_legal x hand c h = rw (h, is_legal) refl

-- The loop finds a legal card if there is one.
first_legal_from-finds :
    (x : State) (hand cs : List Card) (c : Card)
    → contains_card c cs ≡ true
    → is_legal x hand c ≡ true
    → (d : Card) × (first_legal_from x hand cs ≡ some d) × (is_legal x hand d ≡ true)
unfolding first_legal_from contains_card
first_legal_from-finds x hand [] c held legal = cc
first_legal_from-finds x hand (d ∷ cs) c held legal = elim (Bool-cases (is_legal x hand d)) [
  | inl now ↦ (d, rw (now, first_legal_from) refl, now)
  | inr later ↦ elim (Bool-cases (card_eq d c)) [
    | inl same ↦ let e : d ≡ c = ground arith in absurd (ground (arith, rw e at later))
    | inr other ↦
        let (l, found, ok) = first_legal_from-finds x hand cs c (ground arith) legal in
        (l, rw (later, first_legal_from) found, ok)
  ]
]

-- A hand has a card of the suit, another card than a heart, or a card without points, where the tests
-- say so.
suited_card :
    (hand : List Card) (suit : ℕ)
    → hand_has_suit hand suit ≡ true
    → (c : Card) × (contains_card c hand ≡ true) × (c.suit ≡ suit)
unfolding hand_has_suit contains_card
suited_card [] suit h = cc
suited_card (c ∷ cs) suit h = elim (Bool-cases (c.suit == suit)) [
  | inl here ↦ (c, ground arith, ground arith)
  | inr later ↦ let (d, held, same) = suited_card cs suit (ground arith) in (d, ground arith, same)
]

no_heart :
    (hand : List Card)
    → has_other_than_hearts hand ≡ true
    → (c : Card) × (contains_card c hand ≡ true) × ((c.suit == 2) ≡ false)
unfolding has_other_than_hearts contains_card
no_heart [] h = cc
no_heart (c ∷ cs) h = elim (Bool-cases (c.suit == 2)) [
  | inl heart ↦ let (d, held, other) = no_heart cs (ground arith) in (d, ground arith, other)
  | inr here ↦ (c, ground arith, here)
]

no_points :
    (hand : List Card)
    → has_non_penalty_card hand ≡ true
    → (c : Card) × (contains_card c hand ≡ true) × (is_penalty_card c ≡ false)
unfolding has_non_penalty_card contains_card
no_points [] h = cc
no_points (c ∷ cs) h = elim (Bool-cases (is_penalty_card c)) [
  | inl points ↦ let (d, held, other) = no_points cs (ground arith) in (d, ground arith, other)
  | inr here ↦ (c, ground arith, here)
]

some_card : (hand : List Card) → 0 < length hand → (c : Card) × (contains_card c hand ≡ true)
unfolding contains_card
some_card [] h = absurd (omega arith)
some_card (c ∷ cs) h = (c, ground arith)

-- Some card of the hand is legal.
legal_card :
    (x : State) (hand : List Card)
    → 0 < length hand
    → is_opening_sound x hand ≡ true
    → (c : Card) × (contains_card c hand ≡ true) × (validate_play_card x hand c ≡ none)
unfolding is_opening_sound validate_play_card only_hearts is_penalty_card
legal_card x hand h sound = elim (Bool-cases (leading_trick x)) [
  | inl leads ↦ elim (Bool-cases (x.tricks_played == 0)) [
    | inl opening ↦ (two_of_clubs, ground arith, ground arith)
    | inr later ↦ elim (Bool-cases (has_other_than_hearts hand)) [
      | inl other ↦ let (c, held, other) = no_heart hand other in (c, held, ground arith)
      | inr none_other ↦ let (c, held) = some_card hand h in (c, held, ground arith)
    ]
  ]
  | inr follows ↦ elim (Bool-cases (hand_has_suit hand x.led_suit)) [
    | inl able ↦ let (c, held, same) = suited_card hand x.led_suit able in (c, held, ground arith)
    | inr void ↦ elim (Bool-cases (has_non_penalty_card hand)) [
      | inl some_other ↦ let (c, held, other) = no_points hand some_other in (c, held, ground arith)
      | inr only_points ↦ let (c, held) = some_card hand h in (c, held, ground arith)
    ]
  ]
]

-- A player with a card is never stuck in trick play: the absent player's card is found, it is in the
-- hand, and the rules accept it. On the first trick, its leader is to hold the two of clubs and the
-- others are to follow clubs.
pub first_legal_card_found :
    (x : State) (p : Player)
    → 0 < length p.cards
    → is_opening_sound x p.cards ≡ true
    → (c : Card) × (first_legal_card x p ≡ some c) × (validate_play_card x p.cards c ≡ none)
unfolding first_legal_card
first_legal_card_found x p h sound =
    let (c, held, ok) = legal_card x p.cards h sound in
    let (d, found, legal) =
      first_legal_from-finds x p.cards p.cards c held (none-is_legal x p.cards c ok) in
    (d, found, is_legal-none x p.cards d legal)
