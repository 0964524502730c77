-- ===== src/Lobby/Roster.antt =====
-- Lobby: what every operation keeps of the roster, its limit, and the game in play.
use terminal_card.Base.{
  ◌⊎◌, inl, inr, ℕ, zero, suc, ◌≤◌, ◌≡◌, refl, Bool, true, false, ◌&&◌, Option, none, some, List,
  [], ◌∷◌, ◌==◌, ltb, leb, arith, length, erase_at, length-append, Bool-cases,
}
use terminal_card.Base.Int.{ℤ}
use terminal_card.Deck.{Shuffler}
use terminal_card.Game.{Player, player_equal}
use terminal_card.Engine.{Engine, new_engine, default_turn_timeout}
use terminal_card.Engine
use terminal_card.Engine.Laws.{KeepsTable}
use terminal_card.Engine.Runs.{Step, Reach, Reach-IsSound, Reach-new_engine}
use terminal_card.Engine.Soundness.{IsSound}
use terminal_card.Lobby.{
  EventKind, Status, Options, Error, CardGame, Running, Lobby, is_waiting, is_in_game, index_equal,
  contains_player, all_ready, roster, announce, set_options, with_leader_settings, new_limit,
  add_guest, detach_leader, detach_guest, detach_player, remove_running, notify, leave, kick,
  kick_at, kickable_guest, is_finished, release_finished_game, started, start_with, start_game,
  after_start, toggle, toggle_waiting, toggle_ready,
}
use terminal_card.Lobby.Seating.{IsSeatedOnce, append-IsSeatedOnce, erase_at-IsSeatedOnce}

lt-leb : (n m : ℕ) → leb n m ≡ false → suc m ≤ n
lt-leb n m h = ground arith

length-erase_at_le : (i : ℕ) (ps : List Player) → length (erase_at i ps) ≤ length ps
length-erase_at_le i [] = omega arith
length-erase_at_le zero (p ∷ ps) = omega arith
length-erase_at_le (suc i) (p ∷ ps) = omega (arith, length-erase_at_le i ps)

-- A game is in play in a lobby with that status, and in no waiting one.
unfoldable pub plays_as : {X A E : Type 0} → Status → Option (Running X A E) → Bool
plays_as Status.waiting none = true
plays_as Status.waiting (some r) = false
plays_as Status.in_game none = false
plays_as Status.in_game (some r) = true
plays_as Status.closed o = true

-- The engine in play is sound, under rules that keep the table.
unfoldable pub IsPlayedSoundly : {X A E : Type 0} → Option (Running X A E) → Type 0
IsPlayedSoundly none = Unit
IsPlayedSoundly (some r) = KeepsTable r.card_game.rules × IsSound r.engine

-- Nobody sits twice, the roster fits the limit, the status says whether a game is in play, and that
-- game's engine is sound.
pub record IsOrderly {X A E : Type 0} (l : Lobby X A E) : Type 0 where
  pub once : IsSeatedOnce (roster l)
  pub fits : length (roster l) ≤ l.options.max_players
  pub plays : plays_as l.status l.active ≡ true
  pub sound : IsPlayedSoundly l.active

module _ {X A E : Type 0} where
  announce-IsOrderly : (e : EventKind) (l : Lobby X A E) → IsOrderly l → IsOrderly (announce e l)
  unfolding announce
  announce-IsOrderly e l h = record {
    once = h.once;
    fits = h.fits;
    plays = h.plays;
    sound = h.sound;
  }

  -- Settings that leave room for the roster.
  pub with_leader_settings-IsOrderly :
      (actor : Player) (mutate : Lobby X A E → Error E ⊎ Options) (l : Lobby X A E)
      → ((o : Options) → mutate l ≡ inr o → length (roster l) ≤ o.max_players)
      → IsOrderly l
      → IsOrderly (with_leader_settings actor mutate l).0
  unfolding with_leader_settings set_options
  with_leader_settings-IsOrderly actor mutate l room h =
      elim (Bool-cases (player_equal l.leader actor)) [
        | inr other ↦ rw (other, with_leader_settings) h
        | inl leads ↦ elim (Bool-cases (is_waiting l.status)) [
          | inr busy ↦ rw (leads, with_leader_settings, busy) h
          | inl waits ↦ rw (leads, with_leader_settings, waits) (mutated (mutate l) room)
        ]
      ]
    where
      mutated :
          (r : Error E ⊎ Options)
          → ((o : Options) → r ≡ inr o → length (roster l) ≤ o.max_players)
          → IsOrderly (set_options l r).0
      mutated (inl err) room = h
      mutated (inr o) room =
          announce-IsOrderly EventKind.settings_updated _
            (record { once = h.once; fits = room o refl; plays = h.plays; sound = h.sound })

  pub new_limit-fits :
      (limit rules_min rules_max : ℕ) (l : Lobby X A E) (o : Options)
      → new_limit limit rules_min rules_max l ≡ inr o
      → length (roster l) ≤ o.max_players
  unfolding new_limit
  new_limit-fits limit rules_min rules_max l o h =
      elim (Bool-cases (ltb limit (length (roster l)))) [
        | inl below ↦ absurd (ground (arith, h, below))
        | inr enough ↦ ground (arith, h, enough)
      ]

  pub add_guest-IsOrderly :
      (p : Player) (l : Lobby X A E) → IsOrderly l → IsOrderly (add_guest p l).0
  unfolding add_guest contains_player
  add_guest-IsOrderly p l h = elim (Bool-cases (is_waiting l.status)) [
    | inr busy ↦ rw (busy, add_guest) h
    | inl waits ↦ elim (Bool-cases (leb l.options.max_players (length (roster l)))) [
      | inl full ↦ rw (waits, add_guest, full) h
      | inr room ↦ elim (Bool-cases (player_equal l.leader p)) [
        | inl leads ↦ rw (waits, add_guest, room, leads) h
        | inr other ↦ elim (Bool-cases (contains_player p l.guests)) [
          | inl seated ↦ rw (waits, add_guest, room, other, seated) h
          | inr new ↦
              rw (waits, add_guest, room, other, new)
                (announce-IsOrderly EventKind.players_updated _ (record {
                  once = append-IsSeatedOnce (roster l) p h.once (ground (arith, other, new));
                  fits = omega (
                    arith,
                    length-append l.guests (p ∷ []),
                    h.fits,
                    lt-leb l.options.max_players (length (roster l)) room,
                  );
                  plays = h.plays;
                  sound = h.sound;
                }))
        ]
      ]
    ]
  ]

  detach_leader-IsOrderly :
      (p : Player) (gs : List Player) (l : Lobby X A E)
      → l.guests ≡ gs
      → IsOrderly l
      → IsOrderly (detach_leader p gs l).0
  unfolding detach_leader plays_as
  detach_leader-IsOrderly p [] l own h = record {
    once = h.once;
    fits = h.fits;
    plays = refl;
    sound = h.sound;
  }
  detach_leader-IsOrderly p (g ∷ gs) l own h = record {
    once = (rw own at h.once).1;
    fits = omega (arith, h.fits, rw own at h.fits);
    plays = h.plays;
    sound = h.sound;
  }

  detach_guest-IsOrderly :
      (o : Option ℕ) (l : Lobby X A E) → IsOrderly l → IsOrderly (detach_guest o l).0
  unfolding detach_guest
  detach_guest-IsOrderly none l h = h
  detach_guest-IsOrderly (some i) l h = record {
    once = erase_at-IsSeatedOnce (suc i) (roster l) h.once;
    fits = omega (arith, length-erase_at_le i l.guests, h.fits);
    plays = h.plays;
    sound = h.sound;
  }

  detach_player-IsOrderly :
      (p : Player) (l : Lobby X A E) → IsOrderly l → IsOrderly (detach_player p l).0
  unfolding detach_player
  detach_player-IsOrderly p l h = elim (Bool-cases (player_equal l.leader p)) [
    | inl leads ↦ rw (leads, detach_player) (detach_leader-IsOrderly p l.guests l refl h)
    | inr other ↦ rw (other, detach_player) (detach_guest-IsOrderly (index_equal p l.guests) l h)
  ]

  pub plays_as-some :
      (s : Status) (o : Option (Running X A E)) (r u : Running X A E)
      → o ≡ some r
      → plays_as s o ≡ true
      → plays_as s (some u) ≡ true
  unfolding plays_as
  plays_as-some Status.waiting none r u own h = cc
  plays_as-some Status.waiting (some q) r u own h = h
  plays_as-some Status.in_game o r u own h = refl
  plays_as-some Status.closed o r u own h = refl

  plays_as-remove_running :
      (now : ℤ) (pid : ℕ) (s : Status) (o : Option (Running X A E))
      → plays_as s o ≡ true
      → plays_as s (remove_running now pid o) ≡ true
  unfolding remove_running
  plays_as-remove_running now pid s none h = h
  plays_as-remove_running now pid s (some r) h = plays_as-some s (some r) r _ refl h

  remove_running-IsPlayedSoundly :
      (now : ℤ) (pid : ℕ) (o : Option (Running X A E))
      → IsPlayedSoundly o
      → IsPlayedSoundly (remove_running now pid o)
  unfolding remove_running IsPlayedSoundly
  remove_running-IsPlayedSoundly now pid none h = h
  remove_running-IsPlayedSoundly now pid (some r) h =
      (h.0, Reach-IsSound r.card_game.rules h.0 h.1 (Reach.next Reach.here (Step.removes now pid)))

  notify-IsOrderly :
      (now : ℤ) (p : Player) (r : Lobby X A E × Option EventKind)
      → IsOrderly r.0
      → IsOrderly (notify now p r)
  unfolding notify
  notify-IsOrderly now p (l, none) h = h
  notify-IsOrderly now p (l, some e) h = announce-IsOrderly e _ (record {
    once = h.once;
    fits = h.fits;
    plays = plays_as-remove_running now p.id l.status l.active h.plays;
    sound = remove_running-IsPlayedSoundly now p.id l.active h.sound;
  })

  pub leave-IsOrderly :
      (now : ℤ) (p : Player) (l : Lobby X A E) → IsOrderly l → IsOrderly (leave now p l)
  unfolding leave
  leave-IsOrderly now p l h =
      notify-IsOrderly now p (detach_player p l) (detach_player-IsOrderly p l h)

  pub kick-IsOrderly :
      (now : ℤ) (host target : Player) (l : Lobby X A E)
      → IsOrderly l
      → IsOrderly (kick now host target l).0
  unfolding kick kick_at
  kick-IsOrderly now host target l h = elim (Bool-cases (player_equal host target)) [
    | inl self ↦ rw (self, kick) h
    | inr other ↦ rw (other, kick) (kicked (kickable_guest host target l))
  ]
    where
      kicked : (r : Error E ⊎ ℕ) → IsOrderly (kick_at now target r l).0
      kicked (inl err) = h
      kicked (inr i) =
          notify-IsOrderly now target (detach_guest (some i) l)
            (detach_guest-IsOrderly (some i) l h)

  pub release_finished_game-IsOrderly :
      (l : Lobby X A E) → IsOrderly l → IsOrderly (release_finished_game l)
  unfolding release_finished_game plays_as IsPlayedSoundly
  release_finished_game-IsOrderly l h =
      elim (Bool-cases (is_in_game l.status && is_finished l.active)) [
        | inl over ↦
            rw (over, release_finished_game)
              (announce-IsOrderly EventKind.players_updated _
                (record { once = h.once; fits = h.fits; plays = refl; sound = tt }))
        | inr going ↦ rw (going, release_finished_game) h
      ]

module _ {X A E : Type 0} (create : ℕ → Option (CardGame X A E)) (now : ℤ) (sh : Shuffler)
    (rand : ℕ → Option ℕ)
    (laws : (name : ℕ) (g : CardGame X A E) → create name ≡ some g → KeepsTable g.rules) where
  started-IsOrderly :
      (g : CardGame X A E) (l : Lobby X A E) (r : Engine X × Option (Engine.Error E))
      → KeepsTable g.rules
      → IsSound r.0
      → IsOrderly l
      → IsOrderly (started create now sh rand g l r).0
  unfolding started plays_as IsPlayedSoundly
  started-IsOrderly g l (e, some err) keeps sound h = h
  started-IsOrderly g l (e, none) keeps sound h =
      announce-IsOrderly EventKind.game_started _
        (record { once = h.once; fits = h.fits; plays = refl; sound = (keeps, sound) })

  start_with-IsOrderly :
      (o : Option (CardGame X A E)) (l : Lobby X A E)
      → ((g : CardGame X A E) → o ≡ some g → KeepsTable g.rules)
      → IsOrderly l
      → IsOrderly (start_with create now sh rand o l).0
  unfolding start_with
  start_with-IsOrderly none l keeps h = h
  start_with-IsOrderly (some g) l keeps h =
      elim (Bool-cases (ltb (length (roster l)) g.min_players)) [
        | inl few ↦ rw (few, start_with) h
        | inr enough ↦ elim (Bool-cases (ltb g.max_players (length (roster l)))) [
          | inl many ↦ rw (enough, start_with, many) h
          | inr fits ↦
              rw (enough, start_with, fits)
                (started-IsOrderly g l _ (keeps g refl)
                  (Reach-new_engine g.rules (keeps g refl) g.no_extra (roster l) g.initial_deck
                    default_turn_timeout (Reach.next Reach.here (Step.starts now sh rand)))
                  h)
        ]
      ]

  start_game-IsOrderly :
      (l : Lobby X A E) → IsOrderly l → IsOrderly (start_game create now sh rand l).0
  unfolding start_game
  start_game-IsOrderly l h = elim (Bool-cases (is_waiting l.status)) [
    | inr busy ↦ rw (busy, start_game) h
    | inl waits ↦ elim (Bool-cases (all_ready l.ready (roster l))) [
      | inr unready ↦ rw (waits, start_game, unready) h
      | inl ready ↦ elim (Bool-cases (l.options.card_game == 0)) [
        | inl unnamed ↦ rw (waits, start_game, ready, unnamed) h
        | inr named ↦
            rw (waits, start_game, ready, named)
              (start_with-IsOrderly (create l.options.card_game) l (laws l.options.card_game) h)
      ]
    ]
  ]

  after_start-IsOrderly :
      (r : Lobby X A E × Option (Error E))
      → IsOrderly r.0
      → IsOrderly (after_start create now sh rand r).0
  unfolding after_start
  after_start-IsOrderly (l, some err) h = announce-IsOrderly EventKind.players_updated l h
  after_start-IsOrderly (l, none) h = h

  toggle_waiting-IsOrderly :
      (p : Player) (l : Lobby X A E)
      → IsOrderly l
      → IsOrderly (toggle_waiting create now sh rand p l).0
  unfolding toggle_waiting toggle
  toggle_waiting-IsOrderly p l h =
      let t = toggle create now sh rand p l in
      let same : IsOrderly t = record {
        once = h.once;
        fits = h.fits;
        plays = h.plays;
        sound = h.sound;
      } in
      elim (Bool-cases (is_in_game l.status)) [
        | inl going ↦ rw (going, toggle_waiting) h
        | inr idle ↦ elim (Bool-cases (contains_player p (roster l))) [
          | inr stranger ↦ rw (idle, toggle_waiting, stranger) h
          | inl seated ↦ elim (Bool-cases (all_ready t.ready (roster l))) [
            | inr unready ↦
                rw (idle, toggle_waiting, seated, unready)
                  (announce-IsOrderly EventKind.players_updated t same)
            | inl ready ↦
                rw (idle, toggle_waiting, seated, ready)
                  (after_start-IsOrderly (start_game create now sh rand t)
                    (start_game-IsOrderly t same))
          ]
        ]
      ]

  pub toggle_ready-IsOrderly :
      (p : Player) (l : Lobby X A E)
      → IsOrderly l
      → IsOrderly (toggle_ready create now sh rand p l).0
  unfolding toggle_ready
  toggle_ready-IsOrderly p l h =
      toggle_waiting-IsOrderly p (release_finished_game l) (release_finished_game-IsOrderly l h)
