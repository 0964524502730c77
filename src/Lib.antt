-- ===== src/Lib.antt =====
-- Verification of terminal-card: the card piles, the turn engine, the games No-Limit Hold'em, Crazy
-- Eights, Uno and Hearts, Gin Rummy's melds, the event broadcaster, the rate limiter and the lobby.
--
-- terminal-card serves card games over ssh. A lobby seats players at a table; the table's engine
-- (internal/game) owns the roster, the turn cursor and the turn clock and asks a game's rules what a
-- move does; the rules (internal/game/poker and its siblings) keep their own state in the table's
-- Extra and move cards on the piles of internal/deck. Observers learn of changes by broadcast events.
--
-- Files and the code they are about:
--   Base, Base/*       native numbers, Boolean tests, int, uint64 with wrap-around, Go maps
--   Deck               internal/deck/card.go, deck.go, builder.go: cards, piles, the standard deck;
--                      Deck/Bag, Drawing, Removal, Standard prove what drawing and removing keep
--   Game               internal/game/player.go, state.go, action.go, rules.go: players, the table's
--                      State, events, and the Rules interface as a record of hooks
--   Game/Cards         where the cards of a table lie, and the writes to a hand
--   Game/Scores        internal/game/rules.go: AnyScoreAtLeast, StandingsByScore
--   Game/Shed          internal/game/shed.go: the stock and discard pile of the shedding games, with its
--                      theorems in Game/Shed/Laws and Game/Shed/Opening
--   Engine             internal/game/engine.go, turnclock.go: Engine, clampTurnLocked,
--                      applyNextTurnLocked, finishGameLocked, armTurnTimerLocked, Close
--   Engine/Actions     SubmitAction, submitActionLocked, submitTimedOutAction
--   Engine/Leaving     RemovePlayer, removePlayerLocked
--   Engine/Starting    Start with its deal and its rollback
--   Engine/Timeouts    onTurnTimeout, resolveTurnTimeout, removeIfStillIdle, recoverRulesPanic
--   Engine/Places      StandingsWithPlaces, standingsLocked, placesLocked
--   Engine/Laws        what the engine's theorems ask of a game's rules (KeepsTable)
--   Engine/Cursor, Ending, Clock, Roster, Deal, Ranking, Soundness, Runs: the engine's theorems
--   Poker              internal/game/poker/state.go and the readers of it
--   Poker/Betting      rules.go: ValidateAction, ApplyAction, the blinds and raises
--   Poker/Pots         streets.go: buildSidePots, refundUncalled, awardPots, awardUncontested
--   Poker/Evaluator    evaluator.go: evaluateHand; its packed scores in Poker/Scores and below
--   Poker/Streets      streets.go: turn order, the board, the showdown, settleAndAdvance
--   Poker/Hands        rules.go: beginHand, finishHand and what they call
--   Poker/Standings    streets.go: rankPlayers; rules.go: StandingScore
--   Poker/Match        rules.go: OnGameStart, ValidateAction, ApplyAction, AfterAction
--   Poker/Leaving      rules.go: OnPlayerLeave, AfterPlayerRemoved, TimeoutAction, and the Rules record
--   Poker/Chips, Poker/Chips/*, Poker/Roster, Poker/Roster/*, Poker/Absent,
--                      Poker/Raises: the poker theorems
--   CrazyEight         internal/game/crazyeight/rules.go, state.go; theorems in CrazyEight/Laws, Hooks
--   Uno                internal/game/uno/state.go, rules.go: legality and drawing; Uno/Deck is deck.go,
--                      Uno/Moves the moves and the hooks, Uno/Laws, Uno/Laws/* the theorems
--   Hearts             internal/game/hearts/state.go and the legality of a card; Hearts/Tricks is
--                      trick.go, Hearts/Rounds and Hearts/Moves are rules.go; theorems in Hearts/Legal,
--                      Passing, Laws
--   GinRummy           internal/game/ginrummy/melds.go, with the theorems of its search in
--                      GinRummy/Search; GinRummy/Layoffs is layoffs.go, with its theorems in
--                      GinRummy/Keys, Fitting, Growing, Settled
--   Broadcaster        internal/broadcaster/broadcaster.go; theorems in Broadcaster/Delivery, Faithful,
--                      Runs
--   Ratelimit          internal/ratelimit/limiter.go; theorems in Ratelimit/Window, Size, Grants
--   Lobby              internal/lobby/lobby.go, and of manager.go New, Kick and LeaveLobby as far as they
--                      concern one lobby; theorems in Lobby/Seating, Roster, Runs
--   Examples/*         tests, and every property at a concrete input
--
-- How the code is modelled. A method that takes the engine's lock is a function from the engine to
-- the engine and its result; an interleaving of callers is a sequence of such steps (Engine.Runs.Step),
-- with the two lock holds of an expired turn as two steps. The engine's broadcasts are the list `sent`.
-- A timer is the turn sequence it was armed for; an expiry may carry any sequence. The current time
-- is an argument `now`. Ids, user ids and names are numbers in place of strings, with 0 for the empty
-- one and for uuid.Nil. Chips are uint and wrap modulo 2 ^ 64; seat numbers and hand numbers are
-- unbounded. A Go map is an association list with distinct keys, and one iteration order of it is its
-- list's. A failing slice index or an integer division by zero is an explicit error or `none`. The
-- shuffle is a parameter that permutes (Deck.Shuffler); crypto/rand is a parameter that may fail.
--
-- A subscriber's channel is the buffer in its record, and a receive from it a step between the methods,
-- or within a broadcast that found the channel full, where it changes what the broadcast does.
-- The limiter's clock is an argument, the difference to the window written as a sum, and the key that
-- an eviction meets first is given by its position.
--
-- Loops are structural recursion. There is fuel in three places. In runOutBoard it is the number of streets
-- still to deal (Poker.Streets.streets_left, 3): no street comes after the river, and three streets lead
-- to it from before the flop. In OpenDiscard (Game.Shed.open_discard) it is one round more than the
-- stock has cards, and each round but the last draws one. In applyLayoffs it is one round more than
-- there is deadwood, and each round but the last lays a card off.
--
-- The masks of Gin Rummy's melds are sorted, so the order in which Go walks its maps does not reach the
-- search. Their bits are written as powers of two, for the at most 16 cards that the search takes.
--
-- A hook is a function, so it returns. Of a hook that panics, an error of the model's own stands for the
-- panics of a game's own code, where it names one; in the engine, a panic of TimeoutAction ends its lock
-- hold with the miss charged, and recoverRulesPanic runs in one of its own. A panic that leaves another
-- method part-way (of Standings once the phase is finished, say) is outside the model.
--
-- Not modelled: log lines, the wording of errors, snapshots and frames for the user interface, the
-- manager's tables of lobbies with their grace periods, browsing, ratings, storage, the ssh and
-- terminal layers, the network key of an address, and the rules of Gin Rummy.
pub mod Base
pub mod Deck
pub mod Game
pub mod Engine
pub mod Poker
pub mod CrazyEight
pub mod Uno
pub mod Hearts
pub mod Broadcaster
pub mod Ratelimit
pub mod Lobby
pub mod GinRummy
mod Examples
