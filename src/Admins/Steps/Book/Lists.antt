-- ===== src/Admins/Steps/Book/Lists.antt =====
-- The book of a list of sessions after a deletion, an insertion or an update.
use vexa_vm.Common.{
  ℕ, ◌≡◌, refl, ap, ◌∙◌, Bool, true, false, ◌&&◌, not, Option, none, some, List, [], ◌∷◌, ◌++◌,
  arith, if◌then◌else◌, ◌==◌, any, update_where, retain, Bool-cases, inl, inr,
}
use vexa_vm.Db.Rows.{All, All-mono, All-append, All-retain, find?-none}
use vexa_vm.Admins.{Session}
use vexa_vm.Admins.Sessions.{has_token}
use vexa_vm.Admins.Steps.Book.{Entry, keep, passes, entry, to_entry, book}

-- No two sessions have one token.
abbrev pub AreApart : List Session → Type 0
AreApart [] = Unit {0}
AreApart (s ∷ ss) = All (λ t. (s.token_hash == t.token_hash) ≡ false) ss × AreApart ss

pub AreApart-retain :
    (p : Session → Bool) (ss : List Session) → AreApart ss → AreApart (retain p ss)
AreApart-retain p [] a = tt
AreApart-retain p (s ∷ ss) a = elim (Bool-cases (p s)) [
  | inl e ↦
      rw e (
        All-retain (λ t. (s.token_hash == t.token_hash) ≡ false) p ss a.0,
        AreApart-retain p ss a.1,
      )
  | inr e ↦ rw e (AreApart-retain p ss a.1)
]

pub AreApart-append :
    (ss : List Session) (s : Session)
    → All (λ t. has_token s.token_hash t ≡ false) ss
    → AreApart ss
    → AreApart (ss ++ s ∷ [])
AreApart-append [] s h a = (tt, tt)
AreApart-append (t ∷ ss) s h a = (
  All-append (λ u. (t.token_hash == u.token_hash) ≡ false) ss s a.0 h.0,
  AreApart-append ss s h.1 a.1,
)

-- An update that keeps what the book says.
abbrev pub Keeps : (Session → Session) → Type 0
Keeps f = (s : Session) → ((f s).token_hash ≡ s.token_hash) × (entry (f s) ≡ entry s)

apart_updated :
    (token : ℕ) (p : Session → Bool) (f : Session → Session) (ss : List Session)
    → Keeps f
    → All (λ t. (token == t.token_hash) ≡ false) ss
    → All (λ t. (token == t.token_hash) ≡ false) (update_where p f ss)
apart_updated token p f [] k h = tt
apart_updated token p f (s ∷ ss) k h =
    (ground (arith, (k s).0, h.0), apart_updated token p f ss k h.1)

pub AreApart-update :
    (p : Session → Bool) (f : Session → Session) (ss : List Session)
    → Keeps f
    → AreApart ss
    → AreApart (update_where p f ss)
AreApart-update p f [] k a = tt
AreApart-update p f (s ∷ ss) k a = (
  elim (Bool-cases (p s)) [
    | inl e ↦ rw (e, (k s).0) (apart_updated s.token_hash p f ss k a.0)
    | inr e ↦ rw e (apart_updated s.token_hash p f ss k a.0)
  ],
  AreApart-update p f ss k a.1,
)

-- After a session with the token there is no other.
none_after :
    (token : ℕ) (s : Session) (ss : List Session)
    → has_token token s ≡ true
    → All (λ t. (s.token_hash == t.token_hash) ≡ false) ss
    → All (λ t. has_token token t ≡ false) ss
none_after token s ss h a =
    All-mono (λ t. (s.token_hash == t.token_hash) ≡ false) (λ t. has_token token t ≡ false) ss
      (λ t k. ground (arith, h, k)) a

pub book-retain :
    (p : Entry → Bool) (t : ℕ) (ss : List Session)
    → AreApart ss
    → book (retain (λ s. p (entry s)) ss) t ≡ keep p (book ss t)
book-retain p t [] a = refl
book-retain p t (s ∷ ss) a = elim (Bool-cases (has_token t s)) [
  | inl hit ↦ elim (Bool-cases (p (entry s))) [
    | inl stays ↦ rw (hit, stays, hit) refl
    | inr goes ↦
        let rest = find?-none (has_token t) (retain (λ s. p (entry s)) ss) (
          All-retain (λ u. has_token t u ≡ false) (λ s. p (entry s)) ss
            (none_after t s ss hit a.0)) in
        rw (hit, goes, rest) refl
  ]
  | inr miss ↦ elim (Bool-cases (p (entry s))) [
    | inl stays ↦ rw (miss, stays, miss) (book-retain p t ss a.1)
    | inr goes ↦ rw (miss, goes) (book-retain p t ss a.1)
  ]
]

pub book-close :
    (token t : ℕ) (ss : List Session)
    → book (retain (λ s. not (has_token token s)) ss) t ≡ (if t == token then none else book ss t)
book-close token t [] = ground arith
book-close token t (s ∷ ss) = elim (Bool-cases (has_token token s)) [
  | inl gone ↦ rw gone (
      book-close token t ss ∙ elim (Bool-cases (t == token)) [
        | inl same ↦ rw same refl
        | inr other ↦
            let miss : has_token t s ≡ false = ground (arith, gone, other) in rw (other, miss) refl
      ])
  | inr stays ↦ elim (Bool-cases (has_token t s)) [
    | inl hit ↦
        let other : (t == token) ≡ false = ground (arith, hit, stays) in rw (stays, hit, other) refl
    | inr miss ↦ rw (stays, miss) (book-close token t ss)
  ]
]

pub book-append :
    (s : Session) (t : ℕ) (ss : List Session)
    → All (λ u. has_token s.token_hash u ≡ false) ss
    → book (ss ++ s ∷ []) t ≡ (if t == s.token_hash then some (entry s) else book ss t)
book-append s t [] h = ground arith
book-append s t (u ∷ ss) h = elim (Bool-cases (has_token t u)) [
  | inl hit ↦
      let other : (t == s.token_hash) ≡ false = ground (arith, hit, h.0) in rw (hit, other) refl
  | inr miss ↦ rw miss (book-append s t ss h.1)
]

pub book-update :
    (p : Session → Bool) (f : Session → Session) (t : ℕ) (ss : List Session)
    → Keeps f
    → book (update_where p f ss) t ≡ book ss t
book-update p f t [] k = refl
book-update p f t (s ∷ ss) k = elim (Bool-cases (p s)) [
  | inl hit ↦ elim (Bool-cases (has_token t s)) [
    | inl found ↦ rw (hit, (k s).0, found) (ap some (k s).1)
    | inr other ↦ rw (hit, (k s).0, other) (book-update p f t ss k)
  ]
  | inr miss ↦ elim (Bool-cases (has_token t s)) [
    | inl found ↦ rw (miss, found) refl
    | inr other ↦ rw (miss, other) (book-update p f t ss k)
  ]
]

-- A search by token and more asks the book.
pub any_token :
    (t : ℕ) (p : Session → Bool) (q : Entry → Bool) (ss : List Session)
    → ((s : Session) → p s ≡ (has_token t s && q (entry s)))
    → AreApart ss
    → any p ss ≡ passes q (book ss t)
any_token t p q [] k a = refl
any_token t p q (s ∷ ss) k a = elim (Bool-cases (has_token t s)) [
  | inl hit ↦
      let rest =
        any_token t p q ss k a.1
        ∙ ap (λ (o : Option Session). passes q (to_entry o))
            (find?-none (has_token t) ss (none_after t s ss hit a.0)) in
      rw (k s, hit, rest) (ground arith)
  | inr miss ↦ rw (k s, miss) (any_token t p q ss k a.1)
]
