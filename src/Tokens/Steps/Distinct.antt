-- ===== src/Tokens/Steps/Distinct.antt =====
-- No step makes two customer tokens share an id or a token hash.
use vexa_vm.Common.{
  ◌≡◌, Bool, false, ◌||◌, List, [], ◌∷◌, ◌++◌, arith, Bool-cases, inl, inr, ◌==◌, str_eq, eq_iff,
  any, update_where, retain,
}
use vexa_vm.Db.Rows.{All, All-mono, All-retain, All-append, All-update_where}
use vexa_vm.Tokens.{Link, CustomerToken, Tokens, Canonical, links_of}
use vexa_vm.Tokens.Once.{Apart, AreApart}
use vexa_vm.Tokens.Steps.{
  Step, Reach, here, next, create_customer, exchange_customer, authenticate_customer, create_vnc,
  exchange_vnc, revoke_customer, end_customer_session, revoke_vm, end_vnc_session, prune,
}
use vexa_vm.Tokens.Steps.Changes.{
  Keeps, Change, unchanged, updated, removed, create-added, Step-IsChange,
}

All-Apart-update :
    (p : CustomerToken → Bool) (f : CustomerToken → CustomerToken) (k : Link)
    (ts : List CustomerToken)
    → Keeps f
    → All (λ u. Apart k u.link) ts
    → All (λ u. Apart k u.link) (update_where p f ts)
All-Apart-update p f k ts keep h =
    All-update_where (λ u. Apart k u.link) (λ u. Apart k u.link) p f ts
      (λ u a t. (rw ((keep u).0) a.0, rw ((keep u).1) a.1)) (λ u a t. a) h

All-Apart-key :
    (k k' : Link) (ts : List CustomerToken)
    → k'.id ≡ k.id
    → k'.token_hash ≡ k.token_hash
    → All (λ u. Apart k u.link) ts
    → All (λ u. Apart k' u.link) ts
All-Apart-key k k' ts i h =
    All-mono (λ u. Apart k u.link) (λ u. Apart k' u.link) ts (λ u a. (rw i a.0, rw h a.1))

update-AreApart :
    (p : CustomerToken → Bool) (f : CustomerToken → CustomerToken) (ts : List CustomerToken)
    → Keeps f
    → AreApart ts
    → AreApart (update_where p f ts)
update-AreApart p f [] keep h = tt
update-AreApart p f (t ∷ ts) keep h = (
  elim (Bool-cases (p t)) [
    | inl e ↦ rw e (
        All-Apart-key t.link (f t).link (update_where p f ts) ((keep t).0) ((keep t).1)
          (All-Apart-update p f t.link ts keep h.0))
    | inr e ↦ rw e (All-Apart-update p f t.link ts keep h.0)
  ],
  update-AreApart p f ts keep h.1,
)

retain-AreApart :
    (p : CustomerToken → Bool) (ts : List CustomerToken) → AreApart ts → AreApart (retain p ts)
retain-AreApart p [] h = tt
retain-AreApart p (t ∷ ts) h = elim (Bool-cases (p t)) [
  | inl e ↦ rw e (All-retain (λ u. Apart t.link u.link) p ts h.0, retain-AreApart p ts h.1)
  | inr e ↦ rw e (retain-AreApart p ts h.1)
]

append-AreApart :
    (ts : List CustomerToken) (t : CustomerToken)
    → any (λ k. str_eq k.id t.id || k.token_hash == t.token_hash) (links_of ts) ≡ false
    → AreApart ts
    → AreApart (ts ++ t ∷ [])
append-AreApart [] t h a = (tt, tt)
append-AreApart (u ∷ ts) t h a = (
  All-append (λ v. Apart u.link v.link) ts t a.0
      (ground (arith, eq_iff u.id t.id, eq_iff t.id u.id), ground arith),
  append-AreApart ts t (ground arith) a.1,
)

Change-AreApart : {ts ts' : List CustomerToken} → Change ts ts' → AreApart ts → AreApart ts'
Change-AreApart unchanged a = a
Change-AreApart {ts} (updated p f keep closing) a = update-AreApart p f ts keep a
Change-AreApart {ts} (removed p) a = retain-AreApart p ts a

module _ (canonical : Canonical) where
  Step-AreApart :
      {db db' : Tokens} → Step canonical db db' → AreApart db.customer → AreApart db'.customer
  Step-AreApart {db} (create_customer vm hash scopes bound expires id now {t} e) a =
      let (table, fresh, named) = create-added canonical vm hash scopes bound expires id now db e in
      rw table (append-AreApart db.customer t fresh a)
  Step-AreApart {db} (exchange_customer hash session source now ttl e) a =
      Change-AreApart (Step-IsChange canonical (exchange_customer hash session source now ttl e)) a
  Step-AreApart {db} (authenticate_customer session source now e) a =
      Change-AreApart (Step-IsChange canonical (authenticate_customer session source now e)) a
  Step-AreApart {db} (create_vnc vm hash bound created id e) a =
      Change-AreApart (Step-IsChange canonical (create_vnc vm hash bound created id e)) a
  Step-AreApart {db} (exchange_vnc hash session source now e) a =
      Change-AreApart (Step-IsChange canonical (exchange_vnc hash session source now e)) a
  Step-AreApart {db} (revoke_customer vm id now e) a =
      Change-AreApart (Step-IsChange canonical (revoke_customer vm id now e)) a
  Step-AreApart {db} (end_customer_session session now) a =
      Change-AreApart (Step-IsChange canonical (end_customer_session session now)) a
  Step-AreApart {db} (revoke_vm vm now) a =
      Change-AreApart (Step-IsChange canonical (revoke_vm vm now)) a
  Step-AreApart {db} (end_vnc_session session now) a =
      Change-AreApart (Step-IsChange canonical (end_vnc_session session now)) a
  Step-AreApart {db} (prune now) a = Change-AreApart (Step-IsChange canonical (prune now)) a

  -- No sequence of operations on tokens leads from a table where no two customer tokens share an id
  -- or a token hash to one where two do.
  pub Reach-AreApart :
      {db db' : Tokens} → Reach canonical db db' → AreApart db.customer → AreApart db'.customer
  Reach-AreApart here a = a
  Reach-AreApart (next r s) a = Step-AreApart s (Reach-AreApart r a)
