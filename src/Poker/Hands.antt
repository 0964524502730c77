-- ===== src/Poker/Hands.antt =====
-- internal/game/poker/rules.go: a hand is dealt, finished, and followed by the next.
use terminal_card.Base.{
  ℕ, suc, ◌+◌, Bool, true, false, not, ◌&&◌, ◌||◌, Option, none, some, List, [], ◌∷◌, ◌==◌, ltb,
  leb, if◌then◌else◌, get_elem?, length,
}
use terminal_card.Base.Int.{pos}
use terminal_card.Base.GoMap.{put, contains_key}
use terminal_card.Deck.{Card, Pile, Shuffler, shuffle_pile, draw_n_cards, standard_deck, size}
use terminal_card.Deck
use terminal_card.Game.{Player}
use terminal_card.Poker.{State, Table, Error, RoundPhase, chips, cannot_act, chips_in_play}
use terminal_card.Poker.Betting.{post_blind}
use terminal_card.Poker.Streets.{Outcome, next_seat, test_seat, next_to_act, settle_and_advance}

abbrev pub default_stack : ℕ
default_stack = 1000

abbrev pub default_small_blind : ℕ
default_small_blind = 25

abbrev pub default_big_blind : ℕ
default_big_blind = 50

abbrev pub hands_per_match : ℕ
hands_per_match = 10

abbrev pub hole_cards : ℕ
hole_cards = 2

abbrev pub min_deck_after_deal : ℕ
min_deck_after_deal = 8

-- The part of resetForHand that clears the match; the table's winner is cleared by beginHand here.
unfoldable pub reset_for_hand : State → State
reset_for_hand x = record x {
  folded = [];
  players_all_in = [];
  player_bets = [];
  total_contributed = [];
  acted_this_round = [];
  table = [];
  pots = [];
  winners = [];
  main_pool = 0;
  current_bet = 0;
  min_raise = x.big_blind;
  phase = RoundPhase.pre_flop;
  hand_complete = false;
  reached_showdown = false;
}

-- What the loop of dealHoleCards leaves.
pub record Dealing : Type 0 where
  pub players : List Player
  pub deck : Pile
  pub match : State
  pub funded : ℕ
  pub error : Option Error

unfoldable pub deal_seats : ℕ → List Player → Pile → State → Dealing
deal_seats count [] deck x = record {
  players = [];
  deck = deck;
  match = x;
  funded = 0;
  error = none;
}
deal_seats count (p ∷ ps) deck x = elim (chips x p.id == 0) [
  | true ↦
      let y = record x {
        folded = put p.id true x.folded;
        acted_this_round = put p.id true x.acted_this_round;
      } in
      let rest = deal_seats count ps deck y in
      record rest { players = record p { cards = [] } ∷ rest.players }
  | false ↦
      let (left, cards) = draw_n_cards deck (pos count) in
      elim cards [
        | none ↦ record {
          players = p ∷ ps;
          deck = left;
          match = x;
          funded = 0;
          error = some Error.deck_empty;
        }
        | some hand ↦
            let rest = deal_seats count ps left x in
            record rest {
              players = record p { cards = hand } ∷ rest.players;
              funded = suc rest.funded;
            }
      ]
]

-- dealHoleCards.
unfoldable pub deal_hole_cards : ℕ → List Player → Pile → State → Dealing
deal_hole_cards count ps deck x =
    let dealt = deal_seats count ps deck x in
    elim dealt.error [
      | some e ↦ dealt
      | none ↦
          if ltb dealt.funded 2 then record dealt { error = some Error.too_few_funded } else dealt
    ]

unfoldable pub funded_seats : List Player → State → ℕ
funded_seats [] x = 0
funded_seats (p ∷ ps) x = (if ltb 0 (chips x p.id) then 1 else 0) + funded_seats ps x

unfoldable pub next_funded_seat : List Player → State → ℕ → ℕ
unfolding next_seat test_seat
next_funded_seat ps x from =
    elim (next_seat from (length ps) (test_seat ps (λ pid. ltb 0 (chips x pid)))) [
      | none ↦ from
      | some idx ↦ idx
    ]

unfoldable pub set_blinds : List Player → ℕ → Bool → State → State
set_blinds ps dealer heads_up x =
    let sb = if heads_up then dealer else next_funded_seat ps x dealer in
    record x { dealer_index = dealer; sb_index = sb; bb_index = next_funded_seat ps x sb }

unfoldable pub first_to_act_preflop : List Player → State → Bool → Option ℕ
first_to_act_preflop ps x heads_up =
    if heads_up && test_seat ps (λ pid. not (cannot_act x pid)) x.dealer_index
    then some x.dealer_index
    else next_to_act ps x x.bb_index

-- The rest of beginHand: the blinds are posted and the first seat gets the turn.
unfoldable pub open_betting : ℕ → Bool → Table → State → Outcome
open_betting dealer heads_up t x =
    let y = set_blinds t.players dealer heads_up x in
    elim (get_elem? t.players y.sb_index) [
      | none ↦ record { table = t; match = y; error = some Error.panic }
      | some sb ↦ elim (get_elem? t.players y.bb_index) [
        | none ↦ record { table = t; match = y; error = some Error.panic }
        | some bb ↦
            let z = record (post_blind bb.id y.big_blind (post_blind sb.id y.small_blind y)) {
              current_bet = y.big_blind;
            } in
            elim (first_to_act_preflop t.players z heads_up) [
              | none ↦ settle_and_advance t z
              | some first ↦ record {
                table = record t {
                  current_turn = pos first;
                  override_next_turn = some (pos first);
                };
                match = z;
                error = none;
              }
            ]
      ]
    ]

unfoldable pub begin_hand : Shuffler → Table → State → ℕ → Outcome
begin_hand sh t x dealer =
    let r = reset_for_hand x in
    let y = record r { hand_number = r.hand_number + 1; hand_start_chips = chips_in_play r } in
    let dealt = deal_hole_cards hole_cards t.players (shuffle_pile sh (Deck.new standard_deck)) y in
    let t' = record t { winner = none; players = dealt.players; deck = dealt.deck } in
    elim dealt.error [
      | some e ↦ record { table = t'; match = dealt.match; error = some e }
      | none ↦
          if ltb (size dealt.deck) min_deck_after_deal
          then record { table = t'; match = dealt.match; error = some Error.too_few_cards }
          else open_betting dealer (funded_seats dealt.players dealt.match == 2) t' dealt.match
    ]

unfoldable pub record_bustouts : List Player → State → State
record_bustouts [] x = x
record_bustouts (p ∷ ps) x = record_bustouts ps (
    if ltb 0 (chips x p.id) || contains_key p.id x.busted_at_hand
    then x
    else record x { busted_at_hand = put p.id x.hand_number x.busted_at_hand })

-- finishHand, without the check that only writes to the log.
unfoldable pub finish_hand : Table → State → Outcome
finish_hand t x =
    let y =
      record_bustouts t.players (record x { hand_complete = true; phase = RoundPhase.showdown }) in
    if leb y.hands_total y.hand_number || leb (funded_seats t.players y) 1
    then record {
      table = record t { override_next_turn = none };
      match = record y { match_complete = true };
      error = none;
    }
    else let next = next_funded_seat t.players y y.dealer_index in
      record {
        table = record t { current_turn = pos next; override_next_turn = some (pos next) };
        match = y;
        error = none;
      }

unfoldable pub begin_hand_or_finish : Shuffler → Table → State → ℕ → Outcome
begin_hand_or_finish sh t x dealer =
    let o = begin_hand sh t x dealer in
    elim o.error [
      | some e ↦ o
      | none ↦ if o.match.hand_complete then finish_hand o.table o.match else o
    ]
