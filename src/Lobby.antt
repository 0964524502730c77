-- ===== src/Lobby.antt =====
-- internal/lobby/lobby.go, and New and Kick of manager.go: the roster of a lobby, its settings, who is ready, and the game it plays. Each
-- method holds the lobby's lock, so it is one step, with the engine's removal and the event that some send
-- once the lock is dropped. A limit is a count, where a negative one acts as 0; the
-- name of a game is a number, 0 for the empty one.
pub mod Seating
pub mod Roster
pub mod Runs
use terminal_card.Base.{
  ℕ, zero, suc, ◌+◌, ◌≡◌, ◌⊎◌, inl, inr, Bool, true, false, ◌&&◌, ◌||◌, not, Option, none, some,
  List, [], ◌∷◌, ◌++◌, ◌==◌, ltb, leb, if◌then◌else◌, length, erase_at,
}
use terminal_card.Base.Int.{ℤ}
use terminal_card.Base.GoMap.{GoMap, get_or, put, delete}
use terminal_card.Deck.{Card, Shuffler}
use terminal_card.Game.{Player, Rules, player_equal, is_finished_phase}
use terminal_card.Engine.{Engine, new_engine, default_turn_timeout}
use terminal_card.Engine
use terminal_card.Engine.Starting.{start}
use terminal_card.Engine.Leaving.{remove_player}

pub data EventKind : Type 0 where
  players_updated settings_updated lobby_closed game_started : EventKind

pub data Status : Type 0 where
  waiting closed in_game : Status

pub record Options : Type 0 where
  pub card_game : ℕ
  pub max_players : ℕ
  pub is_private : Bool
  pub is_ranked : Bool

abbrev pub default_options : Options
default_options = record { card_game = 0; max_players = 4; is_private = true; is_ranked = false }

pub data Error (E : Type 0) : Type 0 where
  not_leader settings_locked below_roster below_rules above_rules : Error E
  not_accepting full is_leader is_guest in_progress not_in_lobby : Error E
  not_waiting not_ready no_game unknown_game too_few too_many : Error E
  game_required limit_too_small kick_self lobby_is_closed kick_in_game kick_leader : Error E
  start_failed : Engine.Error E → Error E

-- What the registry creates for the name of a game.
pub record CardGame (X A E : Type 0) : Type 0 where
  pub rules : Rules X A E
  pub min_players : ℕ
  pub max_players : ℕ
  pub initial_deck : List Card
  pub no_extra : X

-- The engine in play, with the game it was made for.
pub record Running (X A E : Type 0) : Type 0 where
  pub card_game : CardGame X A E
  pub engine : Engine X

pub record Lobby (X A E : Type 0) : Type 0 where
  pub leader : Player
  pub guests : List Player
  pub options : Options
  pub status : Status
  pub ready : GoMap Bool
  pub active : Option (Running X A E)
  pub sent : List EventKind

abbrev pub is_waiting : Status → Bool
is_waiting Status.waiting = true
is_waiting _ = false

abbrev pub is_in_game : Status → Bool
is_in_game Status.in_game = true
is_in_game _ = false

abbrev pub is_closed : Status → Bool
is_closed Status.closed = true
is_closed _ = false

-- slices.IndexFunc by Equal.
unfoldable pub index_equal : Player → List Player → Option ℕ
index_equal p [] = none
index_equal p (g ∷ gs) =
    let rest = index_equal p gs in
    if player_equal g p then some 0 else elim rest [ none ↦ none | some i ↦ some (suc i) ]

unfoldable pub contains_player : Player → List Player → Bool
contains_player p [] = false
contains_player p (g ∷ gs) = player_equal g p || contains_player p gs

unfoldable pub id_at : ℕ → List Player → ℕ
id_at i [] = 0
id_at zero (g ∷ gs) = g.id
id_at (suc i) (g ∷ gs) = id_at i gs

unfoldable pub all_ready : GoMap Bool → List Player → Bool
all_ready ready [] = true
all_ready ready (p ∷ ps) = get_or false p.id ready && all_ready ready ps

module _ {X A E : Type 0} where
  abbrev pub roster : Lobby X A E → List Player
  roster l = l.leader ∷ l.guests

  -- The lobby that Manager.New makes.
  unfoldable pub new_lobby : Player → Options → Error E ⊎ Lobby X A E
  new_lobby leader options =
      if options.card_game == 0
      then inl Error.game_required
      else if ltb options.max_players 2
      then inl Error.limit_too_small
      else inr (record {
        leader = leader;
        guests = [];
        options = options;
        status = Status.waiting;
        ready = [];
        active = none;
        sent = [];
      })

  unfoldable pub announce : EventKind → Lobby X A E → Lobby X A E
  announce e l = record l { sent = l.sent ++ e ∷ [] }

  unfoldable pub set_options : Lobby X A E → Error E ⊎ Options → Lobby X A E × Option (Error E)
  set_options l (inl err) = (l, some err)
  set_options l (inr o) = (announce EventKind.settings_updated (record l { options = o }), none)

  -- withLeaderSettings.
  unfoldable pub with_leader_settings :
      Player → (Lobby X A E → Error E ⊎ Options) → Lobby X A E → Lobby X A E × Option (Error E)
  with_leader_settings actor mutate l =
      if not (player_equal l.leader actor)
      then (l, some Error.not_leader)
      else if not (is_waiting l.status)
      then (l, some Error.settings_locked)
      else set_options l (mutate l)

  unfoldable pub set_private : Player → Bool → Lobby X A E → Lobby X A E × Option (Error E)
  set_private actor is_private =
      with_leader_settings actor (λ l. inr (record l.options { is_private = is_private }))

  unfoldable pub set_ranked : Player → Bool → Lobby X A E → Lobby X A E × Option (Error E)
  set_ranked actor is_ranked =
      with_leader_settings actor (λ l. inr (record l.options { is_ranked = is_ranked }))

  unfoldable pub set_card_game : Player → ℕ → Lobby X A E → Lobby X A E × Option (Error E)
  set_card_game actor name =
      with_leader_settings actor (λ l. inr (record l.options { card_game = name }))

  unfoldable pub new_limit : ℕ → ℕ → ℕ → Lobby X A E → Error E ⊎ Options
  new_limit limit rules_min rules_max l =
      if ltb limit (length (roster l))
      then inl Error.below_roster
      else if ltb 0 rules_min && ltb limit rules_min
      then inl Error.below_rules
      else if ltb 0 rules_max && ltb rules_max limit
      then inl Error.above_rules
      else inr (record l.options { max_players = limit })

  unfoldable pub set_max_players : Player → ℕ → ℕ → ℕ → Lobby X A E → Lobby X A E × Option (Error E)
  set_max_players actor limit rules_min rules_max =
      with_leader_settings actor (new_limit limit rules_min rules_max)

  unfoldable pub add_guest : Player → Lobby X A E → Lobby X A E × Option (Error E)
  add_guest p l =
      if not (is_waiting l.status)
      then (l, some Error.not_accepting)
      else if leb l.options.max_players (length (roster l))
      then (l, some Error.full)
      else if player_equal l.leader p
      then (l, some Error.is_leader)
      else if contains_player p l.guests
      then (l, some Error.is_guest)
      else (announce EventKind.players_updated (record l { guests = l.guests ++ p ∷ [] }), none)

  -- detachPlayerLocked for the leader: the first guest takes over, or the lobby closes.
  unfoldable pub detach_leader : Player → List Player → Lobby X A E → Lobby X A E × Option EventKind
  detach_leader p [] l = (record l { status = Status.closed }, some EventKind.lobby_closed)
  detach_leader p (g ∷ gs) l = (
    record l { leader = g; guests = gs; ready = delete p.id l.ready },
    some EventKind.players_updated,
  )

  unfoldable pub detach_guest : Option ℕ → Lobby X A E → Lobby X A E × Option EventKind
  detach_guest none l = (l, none)
  detach_guest (some i) l = (
    record l { guests = erase_at i l.guests; ready = delete (id_at i l.guests) l.ready },
    some EventKind.players_updated,
  )

  -- The event to send is none where the player is not in the lobby.
  unfoldable pub detach_player : Player → Lobby X A E → Lobby X A E × Option EventKind
  detach_player p l =
      if player_equal l.leader p
      then detach_leader p l.guests l
      else detach_guest (index_equal p l.guests) l

  unfoldable pub remove_running : ℤ → ℕ → Option (Running X A E) → Option (Running X A E)
  remove_running now pid none = none
  remove_running now pid (some r) =
      some (record r { engine = remove_player r.card_game.rules now pid r.engine })

  -- notifyEngineAndBroadcast.
  unfoldable pub notify : ℤ → Player → Lobby X A E × Option EventKind → Lobby X A E
  notify now p (l, none) = l
  notify now p (l, some e) = announce e (record l { active = remove_running now p.id l.active })

  -- The lobby's part of Manager.LeaveLobby.
  unfoldable pub leave : ℤ → Player → Lobby X A E → Lobby X A E
  leave now p l = notify now p (detach_player p l)

  unfoldable pub kickable_guest : Player → Player → Lobby X A E → Error E ⊎ ℕ
  kickable_guest host target l =
      if is_closed l.status
      then inl Error.lobby_is_closed
      else if is_in_game l.status
      then inl Error.kick_in_game
      else if not (player_equal l.leader host)
      then inl Error.not_leader
      else if player_equal l.leader target
      then inl Error.kick_leader
      else elim (index_equal target l.guests) [ none ↦ inl Error.not_in_lobby | some i ↦ inr i ]

  unfoldable pub kick_at : ℤ → Player → Error E ⊎ ℕ → Lobby X A E → Lobby X A E × Option (Error E)
  kick_at now target (inl err) l = (l, some err)
  kick_at now target (inr i) l = (notify now target (detach_guest (some i) l), none)

  -- The lobby's part of Manager.Kick.
  unfoldable pub kick : ℤ → Player → Player → Lobby X A E → Lobby X A E × Option (Error E)
  kick now host target l =
      if player_equal host target
      then (l, some Error.kick_self)
      else kick_at now target (kickable_guest host target l) l

  unfoldable pub is_finished : Option (Running X A E) → Bool
  is_finished none = false
  is_finished (some r) = is_finished_phase r.engine.state.phase

  unfoldable pub release_finished_game : Lobby X A E → Lobby X A E
  release_finished_game l =
      if is_in_game l.status && is_finished l.active
      then announce EventKind.players_updated
          (record l { status = Status.waiting; active = none; ready = [] })
      else l

-- Starting and readiness, for what the registry creates by name, the clock and the randomness of a start.
module _ {X A E : Type 0} (create : ℕ → Option (CardGame X A E)) (now : ℤ) (sh : Shuffler)
    (rand : ℕ → Option ℕ) where
  unfoldable pub started :
      CardGame X A E
      → Lobby X A E
      → Engine X × Option (Engine.Error E)
      → Lobby X A E × Option (Error E)
  started g l (e, some err) = (l, some (Error.start_failed err))
  started g l (e, none) = (
    announce EventKind.game_started (record l {
      status = Status.in_game;
      active = some (record { card_game = g; engine = e });
      ready = [];
    }),
    none,
  )

  unfoldable pub start_with : Option (CardGame X A E) → Lobby X A E → Lobby X A E × Option (Error E)
  start_with none l = (l, some Error.unknown_game)
  start_with (some g) l =
      if ltb (length (roster l)) g.min_players
      then (l, some Error.too_few)
      else if ltb g.max_players (length (roster l))
      then (l, some Error.too_many)
      else started g l (
          start g.rules now sh rand
            (new_engine g.no_extra (roster l) g.initial_deck default_turn_timeout))

  unfoldable pub start_game : Lobby X A E → Lobby X A E × Option (Error E)
  start_game l =
      if not (is_waiting l.status)
      then (l, some Error.not_waiting)
      else if not (all_ready l.ready (roster l))
      then (l, some Error.not_ready)
      else if l.options.card_game == 0
      then (l, some Error.no_game)
      else start_with (create l.options.card_game) l

  unfoldable pub after_start : Lobby X A E × Option (Error E) → Lobby X A E × Option (Error E)
  after_start (l, some err) = (announce EventKind.players_updated l, some err)
  after_start (l, none) = (l, none)

  unfoldable pub toggle : Player → Lobby X A E → Lobby X A E
  toggle p l = record l { ready = put p.id (not (get_or false p.id l.ready)) l.ready }

  -- ToggleReady once a finished game is released.
  unfoldable pub toggle_waiting : Player → Lobby X A E → Lobby X A E × Option (Error E)
  toggle_waiting p l =
      if is_in_game l.status
      then (l, some Error.in_progress)
      else if not (contains_player p (roster l))
      then (l, some Error.not_in_lobby)
      else if not (all_ready (toggle p l).ready (roster l))
      then (announce EventKind.players_updated (toggle p l), none)
      else after_start (start_game (toggle p l))

  unfoldable pub toggle_ready : Player → Lobby X A E → Lobby X A E × Option (Error E)
  toggle_ready p l = toggle_waiting p (release_finished_game l)
