-- ===== src/Marketplace/Repository/Tx.antt =====
-- repository/order.go, `WithTx`: begin, run the body, and commit, or roll back on its error.
use service_oriented_hw.Common.{◌≡◌, refl, sym, ◌⊎◌, inl, inr, Bool-cases, if◌then◌else◌, arith}
use mathlib.Core.Path.{subst}
use service_oriented_hw.Marketplace.Domain.{internal}
use service_oriented_hw.Marketplace.Session.{
  Db, Env, Session, CommitReply, acknowledged, refused, lost, Result, ok, err, M, next_call,
}

module _ {V A : Type 0} where
  -- The body's statements are seen by nobody before the commit; `start` is what a rollback restores.
  unfoldable pub finish : CommitReply → Session V → Result A × Session V → Result A × Session V
  finish reply start (err e, s) = (err e, record s { db = start.db })
  finish acknowledged start (ok a, s) = (ok a, s)
  finish refused start (ok a, s) = (err internal, record s { db = start.db })
  finish lost start (ok a, s) = (err internal, s)

  unfoldable pub with_tx : M V A → M V A
  unfolding finish
  with_tx body env s =
      if env.refuses s.calls
      then (err internal, next_call s)
      else finish env.commit s (body env (next_call s))

  -- A statement outside of `WithTx` is a transaction of its own: its work is kept or not, and the
  -- reply may be lost.
  unfoldable pub at_once : M V A → M V A
  unfolding finish
  at_once statement env s = finish env.commit s (statement env s)

  pub at_once_keeps :
      (P : Db V → Type 0) (statement : M V A) (env : Env) (s : Session V)
      → P s.db
      → P (statement env s).1.db
      → P (at_once statement env s).1.db
  unfolding at_once finish
  at_once_keeps P statement env s before after = kept env.commit (statement env s) after
    where
      kept :
          (reply : CommitReply) (out : Result A × Session V)
          → P out.1.db
          → P (finish reply s out).1.db
      kept reply (err e, t) h = before
      kept acknowledged (ok a, t) h = h
      kept refused (ok a, t) h = before
      kept lost (ok a, t) h = h

  -- What succeeds has been acknowledged.
  pub at_once_ok :
      (statement : M V A) (env : Env) (s : Session V) (a : A) (s' : Session V)
      → at_once statement env s ≡ (ok a, s')
      → statement env s ≡ (ok a, s')
  unfolding at_once finish
  at_once_ok statement env s a s' h = kept env.commit (statement env s) h
    where
      kept :
          (reply : CommitReply) (out : Result A × Session V)
          → finish reply s out ≡ (ok a, s')
          → out ≡ (ok a, s')
      kept reply (err e, t) h = absurd (ground (arith, h))
      kept acknowledged (ok b, t) h = h
      kept refused (ok b, t) h = absurd (ground (arith, h))
      kept lost (ok b, t) h = absurd (ground (arith, h))

  -- What a call of `WithTx` may have done, by how it ended.
  abbrev pub AllOrNothing : M V A → Env → Session V → Result A × Session V → Type 0
  AllOrNothing body env s (ok a, s') = body env (next_call s) ≡ (ok a, s')
  AllOrNothing body env s (err e, s') =
      (s'.db ≡ s.db) ⊎ ((a : A) × (env.commit ≡ lost) × (body env (next_call s) ≡ (ok a, s')))

  finish-AllOrNothing :
      (body : M V A) (env : Env) (s : Session V) (reply : CommitReply) (out : Result A × Session V)
      → env.commit ≡ reply
      → body env (next_call s) ≡ out
      → AllOrNothing body env s (finish reply s out)
  unfolding finish
  finish-AllOrNothing body env s reply (err e, t) c h = inl refl
  finish-AllOrNothing body env s acknowledged (ok a, t) c h = h
  finish-AllOrNothing body env s refused (ok a, t) c h = inl refl
  finish-AllOrNothing body env s lost (ok a, t) c h = inr (a, c, h)

  -- A transaction is all or nothing, whichever statements are refused. If the call ends without an
  -- error, then its result and its database are those of the body. If it ends with an error, the
  -- database is the one before the call, unless the reply to the commit was lost: then it may be
  -- the one of a body that ended without an error.
  pub with_tx_atomic :
      (body : M V A) (env : Env) (s : Session V) → AllOrNothing body env s (with_tx body env s)
  unfolding with_tx
  with_tx_atomic body env s = elim (Bool-cases (env.refuses s.calls)) [
    | inl no_begin ↦ rw no_begin (inl refl)
    | inr begun ↦
        rw begun (finish-AllOrNothing body env s env.commit (body env (next_call s)) refl refl)
  ]

  -- What holds of the database before, and of every database that the body leaves without an error,
  -- holds of the database after.
  pub with_tx_inv :
      (body : M V A) (env : Env) (s : Session V) (P : Db V → Type 0)
      → P s.db
      → ((a : A) (s' : Session V) → body env (next_call s) ≡ (ok a, s') → P s'.db)
      → P (with_tx body env s).1.db
  with_tx_inv body env s P before after = go (with_tx body env s) (with_tx_atomic body env s)
    where
      go : (out : Result A × Session V) → AllOrNothing body env s out → P out.1.db
      go (ok a, s') h = after a s' h
      go (err e, s') (inl same) = subst P (sym same) before
      go (err e, s') (inr (a, _, h)) = after a s' h
