-- ===== src/Examples/Pots.antt =====
-- internal/game/poker at concrete tables.
use terminal_card.Base.{ℕ, ◌<◌, ◌≡◌, refl, inl, inr, true, false, none, some, List, [], ◌∷◌, arith}
use terminal_card.Base.Words.{u_add, u_sub}
use terminal_card.Base.GoMap.{GoMap, total, put}
use terminal_card.Game.{Player, contains_id}
use terminal_card.Poker.{State, RoundPhase, Pot, contributed, chips_in_play}
use terminal_card.Poker.Betting.{Action, apply_move, post_blind}
use terminal_card.Poker.Pots.{
  build_side_pots, award_pots, refund_uncalled, award_uncontested, refund_contributions,
}
use terminal_card.Poker.Streets.{pay_showdown}
use terminal_card.Poker.Chips.{stake, IsBooked, chips_in_play-stake}
use terminal_card.Poker.Chips.Moves.{Keeps, apply_move-Keeps, post_blind-Keeps}
use terminal_card.Poker.Chips.Cutting.{HasContender, IsCut, build_side_pots-IsCut, pots_total}
use terminal_card.Poker.Chips.Payout.{IsPayout, award_pots-IsPayout}
use terminal_card.Poker.Chips.Refunds.{
  refund_contributions-stake, award_uncontested-stake, refund_uncalled-Keeps,
}
use terminal_card.Base.Int.{pos}
use terminal_card.Game.{Phase}
use terminal_card.Poker.{Table}
use terminal_card.Poker.Streets.{settle_and_advance}
use terminal_card.Poker.Match.{after_betting_action}
use terminal_card.Poker.{contenders}
use terminal_card.Poker.Betting.{validate_raise_to}
use terminal_card.Poker.Chips.Rounds.{IsContested, IsSettled, settle_and_advance-IsSettled}
use terminal_card.Poker.Chips.Hands.{after_betting_action-stake}
use terminal_card.Poker.Chips.Showdown.{pay_showdown_settles}

abbrev seat_of : ℕ → Player
seat_of n = record { id = n; user_id = n; name = 0; cards = [] }

abbrev three_seats : List Player
three_seats = seat_of 1 ∷ seat_of 2 ∷ seat_of 3 ∷ []

-- One short stack all-in for 100, two who put 300 and 500 in.
abbrev hand : State
hand = record {
  dealer_index = 0;
  sb_index = 1;
  bb_index = 2;
  main_pool = 900;
  current_bet = 500;
  min_raise = 200;
  small_blind = 25;
  big_blind = 50;
  phase = RoundPhase.river;
  folded = [];
  players_all_in = (1, true) ∷ [];
  table = [];
  player_chips = (1, 0) ∷ (2, 700) ∷ (3, 500) ∷ [];
  player_bets = (1, 100) ∷ (2, 300) ∷ (3, 500) ∷ [];
  total_contributed = (1, 100) ∷ (2, 300) ∷ (3, 500) ∷ [];
  acted_this_round = [];
  pots = [];
  hand_complete = false;
  winners = [];
  reached_showdown = false;
  hand_number = 1;
  hands_total = 10;
  match_complete = false;
  busted_at_hand = [];
  hand_start_chips = 2100;
}

hand-IsBooked : IsBooked hand
unfolding total
hand-IsBooked = record { pool = refl; fits = omega arith; distinct = (refl, (refl, (refl, tt))) }

pots_of_hand :
    build_side_pots hand three_seats
    ≡ some (
        record { amount = 300; eligible = 1 ∷ 2 ∷ 3 ∷ [] }
        ∷ record { amount = 400; eligible = 2 ∷ 3 ∷ [] }
        ∷ record { amount = 200; eligible = 3 ∷ [] }
        ∷ [])
unfolding build_side_pots u_add u_sub
pots_of_hand = refl

refund_of_hand : (refund_uncalled hand).player_chips ≡ (1, 0) ∷ (2, 700) ∷ (3, 700) ∷ []
unfolding refund_uncalled u_sub put u_add
refund_of_hand = refl

chips_in_play-stake_example : chips_in_play hand ≡ stake hand
chips_in_play-stake_example = chips_in_play-stake hand hand-IsBooked.fits

apply_move-Keeps_example : Keeps hand (apply_move three_seats 2 Action.call hand)
apply_move-Keeps_example = apply_move-Keeps three_seats 2 Action.call hand hand-IsBooked

post_blind-Keeps_example : Keeps hand (post_blind 3 800 hand)
post_blind-Keeps_example = post_blind-Keeps 3 800 hand hand-IsBooked

has_contender : HasContender 0 three_seats hand.total_contributed
unfolding contains_id
has_contender = inl (refl, omega arith)

build_side_pots-IsCut_example :
    (pots : List Pot) × (build_side_pots hand three_seats ≡ some pots)
    × IsCut hand.total_contributed pots
unfolding total
build_side_pots-IsCut_example = build_side_pots-IsCut hand three_seats (omega arith) has_contender

abbrev scores : GoMap ℕ
scores = (1, 9) ∷ (2, 4) ∷ (3, 4) ∷ []

abbrev two_pots : List Pot
two_pots =
    record { amount = 301; eligible = 1 ∷ 2 ∷ 3 ∷ [] }
    ∷ record { amount = 401; eligible = 2 ∷ 3 ∷ [] }
    ∷ []

award_pots-IsPayout_example :
    (y : State) × (award_pots scores two_pots hand ≡ some y) × IsPayout (pots_total two_pots) hand y
unfolding total pots_total
award_pots-IsPayout_example =
    award_pots-IsPayout scores two_pots hand (omega arith, (omega arith, tt)) (omega arith)
      (omega arith)

refund_uncalled-Keeps_example : Keeps hand (refund_uncalled hand)
refund_uncalled-Keeps_example = refund_uncalled-Keeps hand hand-IsBooked

award_uncontested-stake_example :
    (stake (award_uncontested (seat_of 2) hand) ≡ stake hand)
    × ((award_uncontested (seat_of 2) hand).main_pool ≡ 0)
award_uncontested-stake_example = award_uncontested-stake (seat_of 2) hand hand-IsBooked

refund_contributions-stake_example :
    (stake (refund_contributions hand) ≡ stake hand) × ((refund_contributions hand).main_pool ≡ 0)
refund_contributions-stake_example = refund_contributions-stake hand hand-IsBooked

live_seat : (contains_id 2 three_seats ≡ true) × (0 < contributed hand 2)
unfolding contains_id
live_seat = (refl, omega arith)

other_live_seat : (contains_id 3 three_seats ≡ true) × (0 < contributed hand 3)
unfolding contains_id
other_live_seat = (refl, omega arith)

pay_showdown_settles_example :
    (z : State) × (pay_showdown three_seats scores hand ≡ some z)
    × (stake z ≡ stake hand)
    × (z.main_pool ≡ 0)
pay_showdown_settles_example =
    pay_showdown_settles 2 3 three_seats scores hand hand-IsBooked (omega arith) live_seat
      other_live_seat

abbrev river_table : Table
river_table = record {
  players = three_seats;
  left_players = [];
  current_turn = pos 2;
  override_next_turn = none;
  phase = Phase.playing;
  winner = none;
  deck = record { cards = [] };
  discard = none;
  extra = some hand;
}

hand-IsContested : IsContested 2 3 (stake hand) river_table hand
unfolding contains_id
hand-IsContested = record {
  books = hand-IsBooked;
  holds = refl;
  two = omega arith;
  first = (inl (refl, refl), omega arith);
  second = (inl (refl, refl), omega arith);
}

settle_and_advance-IsSettled_example : IsSettled (stake hand) (settle_and_advance river_table hand)
settle_and_advance-IsSettled_example =
    settle_and_advance-IsSettled 2 3 (stake hand) river_table hand hand-IsContested

after_betting_action-stake_example :
    stake (after_betting_action river_table hand).match ≡ stake hand
after_betting_action-stake_example =
    after_betting_action-stake 2 3 river_table hand hand-IsBooked (inr hand-IsContested)

accepted : validate_raise_to river_table hand 2 700 ≡ none
unfolding validate_raise_to u_sub u_add contenders
accepted = refl
