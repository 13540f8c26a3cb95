-- ===== src/Store/Tx/Laws.antt =====
-- Inversion of a query that succeeds.
use ez_vpn_lego.Prelude.{
  ◌≡◌, ◌⊎◌, refl, sym, ap, inl, inr, Bool, true, false, Option, none, some, arith, Bool-cases,
}
use ez_vpn_lego.Store.Rows.{Db}
use ez_vpn_lego.Store.Tx.{
  Error, Result, ok, err, Tx, Link, CommitFate, acknowledged, refused, lost_before, lost_after,
  commit_failed, commit, transact, and_then, ◌>>=◌, ◌>>◌, require, or_fail,
}

pub ok_fst : {A : Type 0} {x y : A × Db} → ok x ≡ ok y → x ≡ y
ok_fst h = cc

split :
    {A B : Type 0} (r : Result (A × Db)) (f : A → Tx B) {b : B} {d'' : Db}
    → ((and_then r f) ≡ ok (b, d''))
    → (a : A) × (d' : Db) × (r ≡ ok (a, d')) × (f a d' ≡ ok (b, d''))
split (ok (a, d')) f h = (a, d', refl, h)
split (err e) f h = cc

module _ {A B : Type 0} (m : Tx A) (f : A → Tx B) {d d'' : Db} {b : B} where
  pub >>=-eq-ok :
      (m >>= f) d ≡ ok (b, d'') → (a : A) × (d' : Db) × (m d ≡ ok (a, d')) × (f a d' ≡ ok (b, d''))
  >>=-eq-ok h = split (m d) f h

pub require_ok :
    {B : Type 0} (t : Bool) (e : Error) (k : Tx B) {d d' : Db} {b : B}
    → (require t e >> k) d ≡ ok (b, d')
    → (t ≡ true) × (k d ≡ ok (b, d'))
require_ok true e k h = (refl, h)
require_ok false e k h = cc

pub or_fail_ok :
    {A B : Type 0} (o : Option A) (e : Error) (f : A → Tx B) {d d' : Db} {b : B}
    → (or_fail o e >>= f) d ≡ ok (b, d')
    → (a : A) × (o ≡ some a) × (f a d ≡ ok (b, d'))
or_fail_ok none e f h = cc
or_fail_ok (some a) e f h = (a, refl, h)

-- A transaction that succeeds has committed what its body made.
commit_ok :
    {A : Type 0} (fate : CommitFate) (r : Result (A × Db)) (d : Db) (a : A) (d' : Db)
    → commit fate r d ≡ (ok a, d')
    → r ≡ ok (a, d')
commit_ok acknowledged (ok (x, y)) d a d' h = cc
commit_ok refused (ok (x, y)) d a d' h = absurd (ground (arith, h))
commit_ok lost_before (ok (x, y)) d a d' h = absurd (ground (arith, h))
commit_ok lost_after (ok (x, y)) d a d' h = absurd (ground (arith, h))
commit_ok fate (err e) d a d' h = absurd (ground (arith, h))

pub transact_ok :
    {A : Type 0} (link : Link) (m : Tx A) (d : Db) (a : A) (d' : Db)
    → transact link m d ≡ (ok a, d')
    → m d ≡ ok (a, d')
transact_ok link m d a d' h = elim (Bool-cases link.begin_fails) [
  | inl down ↦ absurd (ground (arith, h, down))
  | inr up ↦ commit_ok link.commit_fate (m d) d a d' (rw up at h)
]

-- The link holds.
pub record IsUp (link : Link) : Type 0 where
  pub begins : link.begin_fails ≡ false
  pub commits : link.commit_fate ≡ acknowledged

pub transact-IsUp :
    {A : Type 0} (link : Link) (m : Tx A) (d : Db) (a : A) (d' : Db)
    → IsUp link
    → m d ≡ ok (a, d')
    → transact link m d ≡ (ok a, d')
transact-IsUp link m d a d' up h = rw (up.begins, h, up.commits)

-- A transaction whose COMMIT was carried out, though its acknowledgement was lost.
pub record IsLost {A : Type 0} (link : Link) (m : Tx A) (d : Db) (e : Error) (d' : Db)
    : Type 0 where
  pub fate : link.commit_fate ≡ lost_after
  pub error : e ≡ commit_failed
  pub value : A
  pub body : m d ≡ ok (value, d')

-- One that fails leaves the database as it was, or has lost its acknowledgement.
pub transact_failed :
    {A : Type 0} (link : Link) (m : Tx A) (d : Db) (e : Error) (d' : Db)
    → transact link m d ≡ (err e, d')
    → (d' ≡ d) ⊎ IsLost link m d e d'
transact_failed {A} link m d e d' h = elim (Bool-cases link.begin_fails) [
  | inl down ↦ inl (ap (λ x. x.1) (sym (rw down at h)))
  | inr up ↦ committed link.commit_fate (m d) refl refl (rw up at h)
]
  where
    committed :
        (fate : CommitFate) (r : Result (A × Db))
        → link.commit_fate ≡ fate
        → m d ≡ r
        → commit fate r d ≡ (err e, d')
        → (d' ≡ d) ⊎ IsLost link m d e d'
    committed acknowledged (ok (x, y)) same made h = absurd (ground (arith, h))
    committed refused (ok (x, y)) same made h = inl (cc)
    committed lost_before (ok (x, y)) same made h = inl (cc)
    committed lost_after (ok (x, y)) same made h =
        inr (record { fate = same; error = cc; value = x; body = cc })
    committed fate (err c) same made h = inl (cc)
