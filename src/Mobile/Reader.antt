-- ===== src/Mobile/Reader.antt =====
-- apps/mobile/src/reader: opening a link. open-coordinator.ts here; reader-error.ts, reader-machine.ts
-- and decrypt-gate.ts in Errors. The coordinator issues the call that spends an open, and keeps what it
-- answers. A session and its promise are known by the number of their call.
pub mod Errors
pub mod Once
pub mod Own
use aesmsg.Prelude.{
  ℕ, suc, ◌+◌, ◌≡◌, Bool, true, false, Option, none, some, List, [], ◌∷◌, ◌++◌, Text, text_eq, ◌==◌,
  if◌then◌else◌, length,
}

module _ (Response : Type 0) where
  pub data OpenPhase : Type 0 where
    in_flight : OpenPhase
    held : Response → OpenPhase

  pub record Session : Type 0 where
    pub id : Text
    pub number : ℕ
    pub phase : OpenPhase

  -- `current`, and the identifiers of the calls made so far.
  pub record Coordinator : Type 0 where
    pub current : Option Session
    pub posts : List Text

  pub data BeginResult : Type 0 where
    started joined : ℕ → BeginResult
    reuses : Response → BeginResult

  abbrev pub init : Coordinator
  init = record { current = none; posts = [] }

  unfoldable pub peek : Text → Coordinator → Option Session
  peek id c = elim c.current [ none ↦ none | some s ↦ if text_eq s.id id then some s else none ]

  abbrev begin_phase : ℕ → OpenPhase → BeginResult
  begin_phase n in_flight = joined n
  begin_phase n (held response) = reuses response

  abbrev start : Text → Coordinator → BeginResult × Coordinator
  start id c = (
    started (length c.posts),
    record {
      current = some (record { id = id; number = length c.posts; phase = in_flight });
      posts = c.posts ++ (id ∷ []);
    },
  )

  abbrev begin_session : Text → Option Session → Coordinator → BeginResult × Coordinator
  begin_session id none c = start id c
  begin_session id (some s) c =
      if text_eq s.id id then (begin_phase s.number s.phase, c) else start id c

  unfoldable pub begin : Text → Coordinator → BeginResult × Coordinator
  begin id c = begin_session id c.current c

  abbrev settle_session : ℕ → Option Response → Option Session → Option Session
  settle_session n answer none = none
  settle_session n none (some s) = if s.number == n then none else some s
  settle_session n (some response) (some s) =
      if s.number == n then some (record s { phase = held response }) else some s

  -- The call of a number is answered, or it fails.
  unfoldable pub settle : ℕ → Option Response → Coordinator → Coordinator
  settle n answer c = record c { current = settle_session n answer c.current }

  abbrev clear_session : Text → Option Session → Option Session
  clear_session id none = none
  clear_session id (some s) = if text_eq s.id id then none else some s

  unfoldable pub clear : Text → Coordinator → Coordinator
  clear id c = record c { current = clear_session id c.current }
