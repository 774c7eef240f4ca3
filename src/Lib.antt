-- ===== src/Lib.antt =====
-- BlunderNet: a chess site in Go. An api process serves the pages' requests (internal/httpapi), a
-- worker process plays the bot's moves (internal/worker), and they share live games in Redis, an
-- archive with accounts and ratings in Postgres (internal/store), a queue of jobs (internal/queue)
-- and a channel of events for each game. A move is: read the game, edit the copy, write it back by
-- check-and-set; then publish it, and either archive a finished game or send the job that asks the
-- bot to answer. The queue delivers a job at least once and in any order, so the worker has to
-- tell late and duplicate jobs apart, and both processes may archive the same game.
--
-- Base: numbers, lists, strings and signed integers that the parts share. Errors: the sentinel
-- errors of internal/game/game.go and internal/store/redis.go. Chess: what is used of the chess
-- library. Float: float64 and package math.
-- Game: internal/game/game.go (New, ColorFor, EngineColor, replay, FEN, Turn, ApplyMove, Resign).
-- Game/Valid: the invariant of a game. Game/Seats: who may move.
-- Store/Games: internal/store/redis.go (casScript, Create, Update, write, Get). Store/Games/Races:
-- many clients. Store/Games/Answers: the two answers of a write.
-- Rating: internal/rating/glicko2.go. Store/Ratings: internal/store/ratings.go (scoreFor,
-- SaveFinished, applyRating, moveLadder). Store/Ratings/Verdict, with
-- Store/Ratings/Worth: archiving. Store/Ratings/Once:
-- archiving twice.
-- Store/JoinCodes, Store/Classrooms: internal/store/classrooms.go (NormaliseJoinCode, Create,
-- Join, Remove, Delete, RotateCode). Store/Classrooms/Coaches: coaches and sizes. Store/Questions:
-- internal/store/classroomquestions.go (Ask, Answer, CloseQuestion). Store/Questions/Open: open
-- questions and responses. Store/Questions/View: OpenQuestion.
-- World: the state that the processes share. Api: the game handlers of internal/httpapi/server.go
-- (handleMove, handleResign, handleJoin, handleHint, handleReviewStart, afterChange, gameError).
-- Api/Create: handleCreate. Api/Edits, Api/Effects, Api/Creation, Api/Authority: what the handlers
-- do. Api/Created, with Api/Words: every answer of handleCreate. Api/Views: ToState, ToStateFor, handleGet, and
-- Api/Turns: a view beside the answer to a move.
-- Engine/Levels: internal/engine/level.go. Engine/Encode: internal/engine/encode.go, with
-- Engine/Encode/Tensor (over Engine/Encode/Cells) on the tensor and Engine/Encode/Folding on the
-- index of a move. Engine/Material: internal/engine/material.go, with Engine/Material/Mates.
-- Engine/Search: the nodes, selection and expansion of internal/engine/mcts.go; Engine/Search/Run:
-- its simulations and answers; Engine/Search/Settling, Engine/Search/Visits, Engine/Search/Pick and
-- Engine/Search/Answer: the visits of the tree, the choice at the root and the answer. Worker:
-- internal/worker/worker.go (Process, hint, bestMove, levelFor). Worker/Deliveries, Worker/Stale:
-- what a delivery does. Worker/Pace: the waiting of Run (nextBackoff).
-- System: requests and deliveries in any order. System/Promises, System/Finality: what holds of
-- every run.
-- Puzzle: internal/puzzle/derive.go (Parse, phases, UserMoves). Puzzle/Tags: normalizeTags.
-- Puzzle/Parse: what Parse accepts. Puzzle/Reader: internal/puzzle/csv.go, drained in
-- Puzzle/Reader/Drain. Puzzle/Line: the grading of internal/puzzle/explain.go (Check,
-- positionAfter, findMove, FENAfter), proved in Puzzle/Line/Play and
-- Puzzle/Line/Earned.
-- Store/Progress: internal/store/puzzleprogress.go and the keys of puzzleranked.go and
-- puzzlestreak.go. Store/Puzzles: Record of internal/store/puzzleattempts.go, RecordRanked,
-- RecordStreakAttempt and SaveBestStreak; Store/Puzzles/Runs: any calls of them.
-- Store/Sessions: internal/store/sessions.go. Store/Sessions/Spec: sessions without an index, and
-- Store/Sessions/Index and Refine: the two agree.
-- Store/Users: internal/store/users.go. Store/Users/Rows, Store/Users/Calls: names and ids.
-- Store/Users/Recovery: recovery codes.
-- Store/Homework: internal/store/classroomwork.go (SetAssignment, DropAssignment), with
-- Store/Homework/Kept.
-- Store/Select: Select of internal/store/puzzleselect.go, with Store/Select/Rows and
-- Store/Select/Chosen on what it draws.
-- Store/RateLimit: the token bucket of internal/store/ratelimit.go, and Store/RateLimit/Bound.
-- Api/Ranked: handleRankedMove of internal/httpapi/ranked.go. Api/Ranked/Solving, Api/Ranked/Stuck:
-- an attempt from its first move to its last. Api/Ranked/Next: handleRankedNext, and
-- Api/Ranked/Next/Again: asking for a puzzle again. Api/Streak: internal/httpapi/streak.go.
-- Api/Streak/Between: between two puzzles of a run. Api/Accounts: internal/httpapi/auth.go.
-- Api/Accounts/Rotation, Api/Accounts/Recovered: which sessions a request leaves. Api/Limits:
-- internal/httpapi/ratelimit.go. Api/Limits/Share: what one caller gets of a route.
-- Review: internal/review/review.go. Review/Board: what is asked of a board. Review/Report: Game,
-- with Review/Report/Labels and Review/Report/Told on what it reports. Review/Accuracy: the accuracy
-- of a side and the worst moves, with Review/Accuracy/Worst.
-- Tests: concrete games, archives, sites, classrooms, paces, puzzles, desks, draws, samples,
-- logins, members, callers, homework, reviews and engines.
--
-- A classroom call reads the role of its caller before its transaction, and any other call may run
-- in between: its model takes the role that was read as an argument. A deleted account, whose
-- member rows go with it, is not part of that model.
--
-- A Go method that changes its receiver is a function that returns the new value. A handler is a
-- function from the shared state, and from which outside calls fail, to the new state and the
-- reply. A game is a copy: the model of Redis is a function from ids to games, whose JSON encoding
-- is taken to lose nothing. Redis and Postgres run a script or a transaction as one step. The
-- clock, new ids, the caller's identity and the user's rung are arguments. The expected ply -1 of
-- a creation is `none`.
-- The rung of a user is a natural number, which its column keeps between 1 and 6. Upper and lower
-- case are those of ASCII. A password is read as its bytes.
-- Between a read of Redis and the pipeline that follows it any other call may run, so the pipelines
-- of sessions are operations of their own. The digest of a token is taken to be its key. Argon2id
-- is a parameter; a stored hash is its salt and its key. Tokens and clocks of the rate limit are
-- whole numbers of parts and ticks, so its rounding is not modelled. The analysis of a review may
-- answer each of its calls as it likes.
-- A path of the search, whose nodes Go shares with the tree, is the recursion of a simulation: it
-- rebuilds the nodes that it has passed. An index out of range is an outcome of its own. The
-- network's s-th call may answer what it likes, and its policy is a function from indices; a
-- number of simulations below zero is zero.
-- The loop that drains a reader takes fuel: one round more than there are rows is enough.
-- The two loops of newVolatility take fuel, since float64 is a parameter with no law from which
-- their convergence would follow; an archive whose rating runs out of fuel is modelled as a call
-- that fails. All the other loops are structural. Revisions wrap at 2 ^ 64 as the unsigned counter
-- does; the result on races asks for revisions below 2 ^ 53, up to which the numbers of the Lua
-- script are exact. An outside call that fails is taken not to have been carried out.
--
-- Not modelled: the chess library github.com/notnil/chess, the network and its session, the
-- Stockfish process and its analysis of a position, the queries behind a draw of puzzles, and the query
-- that groups responses for a coach, which are parameters; the hand-over of reviews in Run;
-- metrics and logs; the WebSocket and the pages; the reaper of guests; the explanations of puzzles
-- and the learning routes; the boards and handlers of classrooms; imports; profiles and histories
-- and the progress on homework, which only read; the queue's client, the schema's migrations and
-- the start-up of the two programs.
pub mod Base
pub mod Errors
pub mod Puzzle
pub mod Chess
pub mod Float
pub mod Rating
pub mod Game
pub mod Store
pub mod Review
pub mod World
pub mod Api
pub mod Engine
pub mod Worker
pub mod System
pub mod Tests
