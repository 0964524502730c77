-- ===== src/Poker/Roster/Dealing.antt =====
-- Dealing and finishing a hand leave the seats, the leavers and the phase to the engine.
use terminal_card.Base.{
  ℕ, ◌+◌, ◌≡◌, refl, ap, inl, inr, Bool, true, none, List, [], ◌∷◌, ◌==◌, ltb, leb, Bool-cases,
  Option-cases, get_elem?, ◌||◌,
}
use terminal_card.Base.Int.{pos}
use terminal_card.Deck.{Pile, Shuffler, draw_n_cards, shuffle_pile, standard_deck, size}
use terminal_card.Deck
use terminal_card.Game.{Player}
use terminal_card.Engine.Laws.{ids}
use terminal_card.Poker.{State, Table, RoundPhase, chips, chips_in_play}
use terminal_card.Poker.Betting.{post_blind}
use terminal_card.Poker.Streets.{Outcome}
use terminal_card.Poker.Hands.{
  deal_seats, deal_hole_cards, open_betting, begin_hand, finish_hand, begin_hand_or_finish,
  hole_cards, reset_for_hand, funded_seats, record_bustouts, set_blinds, first_to_act_preflop,
  min_deck_after_deal,
}
use terminal_card.Engine.Laws.{SameTable, SameTable-refl, SameTable-trans}
use terminal_card.Poker.Roster.{StepKeeps, settle_and_advance-SameTable}

pub finish_hand-SameTable : StepKeeps finish_hand
unfolding finish_hand
finish_hand-SameTable t x =
    let y =
      record_bustouts t.players (record x { hand_complete = true; phase = RoundPhase.showdown }) in
    elim (Bool-cases (leb y.hands_total y.hand_number || leb (funded_seats t.players y) 1)) [
      | inl over ↦
          rw (over, finish_hand) (record { same_ids = refl; same_left = refl; same_phase = refl })
      | inr more ↦
          rw (more, finish_hand) (record { same_ids = refl; same_left = refl; same_phase = refl })
    ]

pub finished-SameTable :
    (t : Table) (o : Outcome)
    → SameTable t o.table
    → SameTable t (finish_hand o.table o.match).table
finished-SameTable t o h =
    SameTable-trans t o.table (finish_hand o.table o.match).table h
      (finish_hand-SameTable o.table o.match)

ids-deal_seats :
    (n : ℕ) (ps : List Player) (deck : Pile) (x : State)
    → ids (deal_seats n ps deck x).players ≡ ids ps
unfolding deal_seats
ids-deal_seats n [] deck x = refl
ids-deal_seats n (p ∷ ps) deck x = elim (Bool-cases (chips x p.id == 0)) [
  | inl broke ↦ rw (broke, deal_seats) (ap (◌∷◌ p.id) (ids-deal_seats n ps deck _))
  | inr funded ↦ elim (Option-cases (draw_n_cards deck (pos n)).1) [
    | inl dry ↦ rw (funded, dry, deal_seats) refl
    | inr (hand, drawn) ↦
        rw (funded, drawn, deal_seats)
          (ap (◌∷◌ p.id) (ids-deal_seats n ps (draw_n_cards deck (pos n)).0 x))
  ]
]

ids-deal_hole_cards :
    (n : ℕ) (ps : List Player) (deck : Pile) (x : State)
    → ids (deal_hole_cards n ps deck x).players ≡ ids ps
unfolding deal_hole_cards
ids-deal_hole_cards n ps deck x =
    let same = ids-deal_seats n ps deck x in
    elim (Option-cases (deal_seats n ps deck x).error) [
      | inr (e, failed) ↦ rw (failed, deal_hole_cards) same
      | inl fine ↦ elim (Bool-cases (ltb (deal_seats n ps deck x).funded 2)) [
        | inl few ↦ rw (fine, few, deal_hole_cards) same
        | inr enough ↦ rw (fine, enough, deal_hole_cards) same
      ]
    ]

open_betting-SameTable : (dealer : ℕ) (heads_up : Bool) → StepKeeps (open_betting dealer heads_up)
unfolding open_betting
open_betting-SameTable dealer heads_up t x =
    let y = set_blinds t.players dealer heads_up x in
    elim (Option-cases (get_elem? t.players y.sb_index)) [
      | inl no_sb ↦ rw (no_sb, open_betting) (SameTable-refl t)
      | inr (sb, small) ↦ elim (Option-cases (get_elem? t.players y.bb_index)) [
        | inl no_bb ↦ rw (small, no_bb, open_betting) (SameTable-refl t)
        | inr (bb, big) ↦
            let z : State =
              record (post_blind bb.id y.big_blind (post_blind sb.id y.small_blind y)) {
                current_bet = y.big_blind;
              } in
            elim (Option-cases (first_to_act_preflop t.players z heads_up)) [
              | inl nobody ↦
                  rw (small, big, nobody, open_betting) (settle_and_advance-SameTable t z)
              | inr (first, acts) ↦
                  rw (small, big, acts, open_betting)
                    (record { same_ids = refl; same_left = refl; same_phase = refl })
            ]
      ]
    ]

begin_hand-SameTable :
    (sh : Shuffler) (dealer : ℕ) (t : Table) (x : State)
    → SameTable t (begin_hand sh t x dealer).table
unfolding begin_hand
begin_hand-SameTable sh dealer t x =
    let r = reset_for_hand x in
    let y : State = record r {
      hand_number = r.hand_number + 1;
      hand_start_chips = chips_in_play r;
    } in
    let dealt = deal_hole_cards hole_cards t.players (shuffle_pile sh (Deck.new standard_deck)) y in
    let t' : Table = record t { winner = none; players = dealt.players; deck = dealt.deck } in
    let same : SameTable t t' = record {
      same_ids =
          ids-deal_hole_cards hole_cards t.players (shuffle_pile sh (Deck.new standard_deck)) y;
      same_left = refl;
      same_phase = refl;
    } in
    elim (Option-cases dealt.error) [
      | inr (e, failed) ↦ rw (failed, begin_hand) same
      | inl fine ↦ elim (Bool-cases (ltb (size dealt.deck) min_deck_after_deal)) [
        | inl few ↦ rw (fine, few, begin_hand) same
        | inr enough ↦
            let heads_up = funded_seats dealt.players dealt.match == 2 in
            rw (fine, enough, begin_hand)
              (SameTable-trans t t' (open_betting dealer heads_up t' dealt.match).table same
                (open_betting-SameTable dealer heads_up t' dealt.match))
      ]
    ]

pub begin_hand_or_finish-SameTable :
    (sh : Shuffler) (dealer : ℕ) (t : Table) (x : State)
    → SameTable t (begin_hand_or_finish sh t x dealer).table
unfolding begin_hand_or_finish
begin_hand_or_finish-SameTable sh dealer t x =
    let o = begin_hand sh t x dealer in
    let same = begin_hand-SameTable sh dealer t x in
    elim (Option-cases o.error) [
      | inr (e, failed) ↦ rw (failed, begin_hand_or_finish) same
      | inl fine ↦ elim (Bool-cases o.match.hand_complete) [
        | inl over ↦ rw (fine, over, begin_hand_or_finish) (finished-SameTable t o same)
        | inr still ↦ rw (fine, still, begin_hand_or_finish) same
      ]
    ]
