-- ===== src/Lobby/Runs.antt =====
-- Lobby: every history of a lobby, with the steps of the game it plays.
use terminal_card.Base.{
  ℕ, ◌≤◌, ◌≡◌, refl, subst, inl, inr, Bool, false, Bool-cases, ltb, ◌==◌, Option, none, some, [],
  arith,
}
use terminal_card.Base.Int.{ℤ}
use terminal_card.Deck.{Shuffler}
use terminal_card.Game.{Player}
use terminal_card.Engine.{Engine}
use terminal_card.Engine.Laws.{KeepsTable}
use terminal_card.Engine.Runs.{Reach, Reach-IsSound}
use terminal_card.Engine.Soundness.{IsSound}
use terminal_card.Engine.Runs
use terminal_card.Lobby.{
  Status, Options, CardGame, Running, Lobby, new_lobby, kick, with_leader_settings, set_private,
  set_ranked, set_card_game, new_limit, set_max_players, add_guest, contains_player, leave,
  release_finished_game, toggle_ready,
}
use terminal_card.Lobby.Roster.{
  IsPlayedSoundly, plays_as, IsOrderly, with_leader_settings-IsOrderly, new_limit-fits,
  add_guest-IsOrderly, leave-IsOrderly, release_finished_game-IsOrderly, toggle_ready-IsOrderly,
  plays_as-some, kick-IsOrderly,
}

le-ltb : (n m : ℕ) → ltb n m ≡ false → m ≤ n
le-ltb n m h = ground arith

-- A method of the lobby, or a step of the game it plays.
pub data Step {X A E : Type 0} (create : ℕ → Option (CardGame X A E)) (l : Lobby X A E)
    : Lobby X A E → Type 0 where
  sets_private :
      (actor : Player) (is_private : Bool) → Step create l (set_private actor is_private l).0
  sets_ranked : (actor : Player) (is_ranked : Bool) → Step create l (set_ranked actor is_ranked l).0
  sets_card_game : (actor : Player) (name : ℕ) → Step create l (set_card_game actor name l).0
  sets_max_players :
      (actor : Player) (limit rules_min rules_max : ℕ)
      → Step create l (set_max_players actor limit rules_min rules_max l).0
  joins : (p : Player) → Step create l (add_guest p l).0
  leaves : (now : ℤ) (p : Player) → Step create l (leave now p l)
  kicks : (now : ℤ) (host target : Player) → Step create l (kick now host target l).0
  releases : Step create l (release_finished_game l)
  toggles :
      (now : ℤ) (sh : Shuffler) (rand : ℕ → Option ℕ) (p : Player)
      → Step create l (toggle_ready create now sh rand p l).0
  plays :
      (r : Running X A E) {f : Engine X}
      → l.active ≡ some r
      → Runs.Step r.card_game.rules r.engine f
      → Step create l (record l { active = some (record r { engine = f }) })

pub data Histories {X A E : Type 0} (create : ℕ → Option (CardGame X A E)) (l : Lobby X A E)
    : Lobby X A E → Type 0 where
  here : Histories create l l
  next : {m n : Lobby X A E} → Histories create l m → Step create m n → Histories create l n

module _ {X A E : Type 0} (create : ℕ → Option (CardGame X A E))
    (laws : (name : ℕ) (g : CardGame X A E) → create name ≡ some g → KeepsTable g.rules) where
  same_limit-IsOrderly :
      (actor : Player) (change : Lobby X A E → Options) (l : Lobby X A E)
      → (change l).max_players ≡ l.options.max_players
      → IsOrderly l
      → IsOrderly (with_leader_settings actor (λ m. inr (change m)) l).0
  same_limit-IsOrderly actor change l same h =
      with_leader_settings-IsOrderly actor (λ m. inr (change m)) l
        (λ o e. ground (arith, e, same, h.fits)) h

  played-IsOrderly :
      (l : Lobby X A E) (r : Running X A E) (f : Engine X)
      → l.active ≡ some r
      → Runs.Step r.card_game.rules r.engine f
      → IsOrderly l
      → IsOrderly (record l { active = some (record r { engine = f }) })
  unfolding IsPlayedSoundly
  played-IsOrderly l r f own st h =
      let sound : KeepsTable r.card_game.rules × IsSound r.engine = rw own at h.sound in
      record {
        once = h.once;
        fits = h.fits;
        plays = plays_as-some l.status l.active r _ own h.plays;
        sound =
            (sound.0, Reach-IsSound r.card_game.rules sound.0 sound.1 (Reach.next Reach.here st));
      }

  Step-IsOrderly : {l m : Lobby X A E} → Step create l m → IsOrderly l → IsOrderly m
  unfolding set_private set_ranked set_card_game set_max_players
  Step-IsOrderly {l = l} (Step.sets_private actor is_private) h =
      same_limit-IsOrderly actor (λ m. record m.options { is_private = is_private }) l refl h
  Step-IsOrderly {l = l} (Step.sets_ranked actor is_ranked) h =
      same_limit-IsOrderly actor (λ m. record m.options { is_ranked = is_ranked }) l refl h
  Step-IsOrderly {l = l} (Step.sets_card_game actor name) h =
      same_limit-IsOrderly actor (λ m. record m.options { card_game = name }) l refl h
  Step-IsOrderly {l = l} (Step.sets_max_players actor limit rules_min rules_max) h =
      with_leader_settings-IsOrderly actor (new_limit limit rules_min rules_max) l
        (new_limit-fits limit rules_min rules_max l) h
  Step-IsOrderly {l = l} (Step.joins p) h = add_guest-IsOrderly p l h
  Step-IsOrderly {l = l} (Step.leaves now p) h = leave-IsOrderly now p l h
  Step-IsOrderly {l = l} (Step.kicks now host target) h = kick-IsOrderly now host target l h
  Step-IsOrderly {l = l} Step.releases h = release_finished_game-IsOrderly l h
  Step-IsOrderly {l = l} (Step.toggles now sh rand p) h =
      toggle_ready-IsOrderly create now sh rand laws p l h
  Step-IsOrderly {l = l} (Step.plays r own st) h = played-IsOrderly l r _ own st h

  history-IsOrderly : {l m : Lobby X A E} → IsOrderly l → Histories create l m → IsOrderly m
  history-IsOrderly h Histories.here = h
  history-IsOrderly h (Histories.next before st) = Step-IsOrderly st (history-IsOrderly h before)

fresh-IsOrderly :
    {X A E : Type 0} (leader : Player) (options : Options) (l : Lobby X A E)
    → new_lobby leader options ≡ inr l
    → IsOrderly l
unfolding new_lobby IsPlayedSoundly contains_player plays_as
fresh-IsOrderly {X = X} {A = A} {E = E} leader options l made =
    elim (Bool-cases (options.card_game == 0)) [
      | inl unnamed ↦ absurd (ground (arith, made, unnamed))
      | inr named ↦ elim (Bool-cases (ltb options.max_players 2)) [
        | inl small ↦ absurd (ground (arith, made, named, small))
        | inr room ↦
            let fresh : Lobby X A E = record {
              leader = leader;
              guests = [];
              options = options;
              status = Status.waiting;
              ready = [];
              active = none;
              sent = [];
            } in
            let same : fresh ≡ l = ground (arith, made, named, room) in
            subst IsOrderly same (record {
              once = (refl, tt);
              fits = omega (arith, le-ltb options.max_players 2 room);
              plays = refl;
              sound = tt;
            })
      ]
    ]

-- In every history of a lobby that New has made, its methods and the steps of its games in any order,
-- where the games keep what the engine asks of them: nobody is seated twice, the roster fits the limit, a
-- game is in play exactly while the status says so unless the lobby was closed, and the engine of that
-- game is sound.
pub Histories-new_lobby :
    {X A E : Type 0} (create : ℕ → Option (CardGame X A E))
    → ((name : ℕ) (g : CardGame X A E) → create name ≡ some g → KeepsTable g.rules)
    → (leader : Player) (options : Options) {l m : Lobby X A E} → new_lobby leader options ≡ inr l
    → Histories create l m
    → IsOrderly m
Histories-new_lobby create laws leader options {l = l} made history =
    history-IsOrderly create laws (fresh-IsOrderly leader options l made) history
