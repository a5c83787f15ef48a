-- ===== src/Mobile/Reader/Once.antt =====
-- How often the coordinator of apps/mobile/src/reader/open-coordinator.ts opens a link.
use aesmsg.Prelude.{
  ℕ, ◌≡◌, ◌≢◌, refl, sym, ◌∙◌, inl, inr, Option, none, some, List, [], ◌∷◌, Text, text_eq,
  text_eq_iff, ◌==◌, All, Bool-cases,
}
use aesmsg.Mobile.Reader.{
  Session, Coordinator, begin, settle, settle_session, clear, clear_session, begin_session,
}

-- What happens to a coordinator: the reader begins, a call is answered or fails, the reader clears.
pub data Event (Response : Type 0) : Type 0 where
  begins clears : Text → Event Response
  answers : ℕ → Response → Event Response
  fails : ℕ → Event Response

module _ (Response : Type 0) where
  unfoldable pub step : Event Response → Coordinator Response → Coordinator Response
  unfolding begin settle clear
  step (begins id) c = (begin Response id c).1
  step (clears id) c = clear Response id c
  step (answers n response) c = settle Response n (some response) c
  step (fails n) c = settle Response n none c

  unfoldable pub steps : List (Event Response) → Coordinator Response → Coordinator Response
  unfolding step
  steps [] c = c
  steps (e ∷ es) c = steps es (step e c)

  -- What happens while one link is read and no call fails: the reader begins it again, after a tap or
  -- a remount, calls are answered, and other links are cleared.
  abbrev pub IsReading : Text → Event Response → Type 0
  IsReading id (begins j) = j ≡ id
  IsReading id (clears j) = j ≢ id
  IsReading id (answers n response) = Unit {0}
  IsReading id (fails n) = ⊥

  -- There is a session of the link.
  abbrev IsOpenFor : Text → Option (Session Response) → Type 0
  IsOpenFor id none = ⊥
  IsOpenFor id (some s) = s.id ≡ id

  settle_session-IsOpenFor :
      (id : Text) (n : ℕ) (r : Response) (o : Option (Session Response))
      → IsOpenFor id o
      → IsOpenFor id (settle_session Response n (some r) o)
  settle_session-IsOpenFor id n r none h = elim h [ ]
  settle_session-IsOpenFor id n r (some s) h = elim (Bool-cases (s.number == n)) [
    | inl e ↦ rw e h
    | inr e ↦ rw e h
  ]

  clear_session-IsOpenFor :
      (id j : Text) (o : Option (Session Response))
      → IsOpenFor id o
      → j ≢ id
      → IsOpenFor id (clear_session Response j o)
  clear_session-IsOpenFor id j none h differ = elim h [ ]
  clear_session-IsOpenFor id j (some s) h differ = elim (Bool-cases (text_eq s.id j)) [
    | inl e ↦ absurd (differ (sym ((text_eq_iff s.id j).0 e) ∙ h))
    | inr e ↦ rw e h
  ]

  begin_session-same :
      (id : Text) (o : Option (Session Response)) (c : Coordinator Response)
      → IsOpenFor id o
      → (begin_session Response id o c).1 ≡ c
  begin_session-same id none c h = elim h [ ]
  begin_session-same id (some s) c h = rw ((text_eq_iff s.id id).1 h) refl

  step-IsOpenFor :
      (id : Text) (e : Event Response) (c : Coordinator Response)
      → IsOpenFor id c.current
      → IsReading id e
      → IsOpenFor id (step e c).current × ((step e c).posts ≡ c.posts)
  unfolding step begin settle clear
  step-IsOpenFor id (begins j) c o r =
      let same = begin_session-same id c.current c o in rw (r, same) (o, refl)
  step-IsOpenFor id (clears j) c o r = (clear_session-IsOpenFor id j c.current o r, refl)
  step-IsOpenFor id (answers n response) c o r =
      (settle_session-IsOpenFor id n response c.current o, refl)
  step-IsOpenFor id (fails n) c o r = elim r [ ]

  begin_session-IsOpenFor :
      (id : Text) (o : Option (Session Response)) (c : Coordinator Response)
      → c.current ≡ o
      → IsOpenFor id (begin_session Response id o c).1.current
  begin_session-IsOpenFor id none c e = refl
  begin_session-IsOpenFor id (some s) c e = elim (Bool-cases (text_eq s.id id)) [
    | inl t ↦ rw (t, e) ((text_eq_iff s.id id).0 t)
    | inr t ↦ rw t refl
  ]

  begin-IsOpenFor :
      (id : Text) (c : Coordinator Response) → IsOpenFor id (begin Response id c).1.current
  unfolding begin
  begin-IsOpenFor id c = begin_session-IsOpenFor id c.current c refl

  steps-IsOpenFor :
      (id : Text) (es : List (Event Response)) (c : Coordinator Response)
      → IsOpenFor id c.current
      → All (IsReading id) es
      → (steps es c).posts ≡ c.posts
  unfolding steps
  steps-IsOpenFor id [] c o h = refl
  steps-IsOpenFor id (e ∷ es) c o h =
      let next = step-IsOpenFor id e c o h.0 in steps-IsOpenFor id es (step e c) next.0 h.1 ∙ next.1

  -- A link is opened at most once for one reading: after the reader begins, however often it begins
  -- again and whenever the answer comes, no further call is made as long as no call fails and the
  -- link is not cleared.
  pub steps-posts :
      (id : Text) (es : List (Event Response)) (c : Coordinator Response)
      → All (IsReading id) es
      → (steps (begins id ∷ es) c).posts ≡ (begin Response id c).1.posts
  unfolding steps step
  steps-posts id es c h = steps-IsOpenFor id es (begin Response id c).1 (begin-IsOpenFor id c) h
