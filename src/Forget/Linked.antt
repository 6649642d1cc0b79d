-- ===== src/Forget/Linked.antt =====
-- What forgetting one message leaves (forget.py): which hashes are forgotten, and which the tables of the
-- content handlers name.
use mathlib.Core.Path.{subst}
use py_aleph.Prelude.{ℕ, ◌≡◌, ◌≢◌, none, List, [], ◌∷◌, arith, All}
use py_aleph.Result.{ok, for_each, invert, for_each-keeps, ok_inj}
use py_aleph.Node.{MessageType, Message, Tables}
use py_aleph.Node.Accessors.{forget_message, append_to_forgotten_by}
use py_aleph.Node.Consistent.{
  IsConsistent, IsKnown, forget_message-IsConsistent, forget_message-IsKnown,
}
use py_aleph.Handler.{Session}
use py_aleph.Forget.{ForgetEnv, forget_one}

-- The hash has a row in the table of forgotten messages.
abbrev pub IsForgotten : ℕ → Tables → Type 0
IsForgotten h t = t.forgotten h ≢ none

pub forget_message-IsForgotten :
    (h by j : ℕ) (t u : Tables) → IsForgotten j t → forget_message h by t ≡ ok u → IsForgotten j u
unfolding forget_message
forget_message-IsForgotten h by j t u k e = ground arith

pub forget_message_self :
    (h by : ℕ) (t u : Tables) → IsKnown h t → forget_message h by t ≡ ok u → IsForgotten h u
unfolding forget_message
forget_message_self h by t u k e = ground arith

pub append-IsForgotten :
    (h by j : ℕ) (t : Tables) → IsForgotten j t → IsForgotten j (append_to_forgotten_by h by t)
unfolding append_to_forgotten_by
append-IsForgotten h by j t k = ground arith

pub All-IsKnown :
    (h by : ℕ) (t u : Tables) (js : List ℕ)
    → forget_message h by t ≡ ok u
    → All (λ j. IsKnown j t) js
    → All (λ j. IsKnown j u) js
All-IsKnown h by t u [] e k = tt
All-IsKnown h by t u (j ∷ js) e k =
    (forget_message-IsKnown h by j t u k.0 e, All-IsKnown h by t u js e k.1)

-- Each hash that the tables of the content handlers name has a row in the message tables, or one in
-- the table of forgotten messages.
abbrev pub IsLinked : {E : Type 0} → (E → List ℕ) → Session E → Type 0
IsLinked names s = All (λ h. IsKnown h s.tables) (names s.ext)

-- What is assumed of a content handler that forgets a message, where `names` has the hashes that its
-- tables name: it leaves the message tables to the caller, and it returns, and leaves in its tables,
-- only hashes that its tables named before.
pub record NamesKnown {E : Type 0} (env : ForgetEnv E) (names : E → List ℕ) : Type 0 where
  pub same :
      (type : MessageType) (m : Message) (s s' : Session E) (hs : List ℕ)
      → (env.content_handlers type).forget_message m s ≡ ok (s', hs)
      → s'.tables ≡ s.tables
  pub named :
      (type : MessageType) (m : Message) (s s' : Session E) (hs : List ℕ) (t : Tables)
      → (env.content_handlers type).forget_message m s ≡ ok (s', hs)
      → All (λ h. IsKnown h t) (names s.ext)
      → All (λ h. IsKnown h t) hs × All (λ h. IsKnown h t) (names s'.ext)

pub append-IsKnown :
    (h by j : ℕ) (t : Tables) → IsKnown j t → IsKnown j (append_to_forgotten_by h by t)
unfolding append_to_forgotten_by
append-IsKnown h by j t k = ground arith

pub All-append :
    (h by : ℕ) (t : Tables) (js : List ℕ)
    → All (λ j. IsKnown j t) js
    → All (λ j. IsKnown j (append_to_forgotten_by h by t)) js
All-append h by t [] k = tt
All-append h by t (j ∷ js) k = (append-IsKnown h by j t k.0, All-append h by t js k.1)

module _ {E : Type 0} (env : ForgetEnv E) where
  pub forget_one-tables :
      (by h : ℕ) (s s' : Session E)
      → forget_one env by h s ≡ ok s'
      → forget_message h by s.tables ≡ ok s'.tables
  forget_one-tables by h s s' e = invert (forget_message h by s.tables) _ e λ t et e1. cc (et, e1)

  pub forget_all-IsConsistent :
      (by : ℕ) (hs : List ℕ) (s t : Session E)
      → for_each (forget_one env by) hs s ≡ ok t
      → All (λ h. IsKnown h s.tables) hs
      → IsConsistent s.tables
      → IsConsistent t.tables
  unfolding for_each
  forget_all-IsConsistent by [] s t e k c =
      subst IsConsistent {x = s.tables} {y = t.tables} (cc (e)) c
  forget_all-IsConsistent by (h ∷ hs) s t e k c = invert (forget_one env by h s) _ e λ u eu er.
      let f = forget_one-tables by h s u eu in
      forget_all-IsConsistent by hs u t er (All-IsKnown h by s.tables u.tables hs f k.1)
        (forget_message-IsConsistent h by s.tables u.tables c k.0 f)

  pub forget_all-IsForgotten :
      (by j : ℕ) (hs : List ℕ) (s t : Session E)
      → for_each (forget_one env by) hs s ≡ ok t
      → IsForgotten j s.tables
      → IsForgotten j t.tables
  forget_all-IsForgotten by j hs s t e k =
      for_each-keeps (λ (x : Session E). IsForgotten j x.tables) (forget_one env by)
        (λ h u v eu ku.
          forget_message-IsForgotten h by j u.tables v.tables ku (forget_one-tables by h u v eu))
        hs s t e k

  module _ (names : E → List ℕ) where
    pub forget_one-IsLinked :
        (by h : ℕ) (s t : Session E)
        → forget_one env by h s ≡ ok t
        → IsLinked names s
        → IsLinked names t
    forget_one-IsLinked by h s t e k = invert (forget_message h by s.tables) _ e λ u eu e1.
        let eq : record s { tables = u } ≡ t = ok_inj e1 in
        subst (IsLinked names) eq (All-IsKnown h by s.tables u (names s.ext) eu k)

    pub forget_all-IsLinked :
        (by : ℕ) (hs : List ℕ) (s t : Session E)
        → for_each (forget_one env by) hs s ≡ ok t
        → IsLinked names s
        → IsLinked names t
    forget_all-IsLinked by hs s t e k =
        for_each-keeps (IsLinked names) (forget_one env by)
          (λ h u v eu ku. forget_one-IsLinked by h u v eu ku) hs s t e k
