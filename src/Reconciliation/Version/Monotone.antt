-- ===== src/Reconciliation/Version/Monotone.antt =====
-- The session versions of lib/reconciliation-worker.ts from below.
use brain_mate.Common.{
  ℕ, String, ◌≡◌, refl, ap, sym, ◌≤◌, false, none, str_eq, eq_iff, arith, apart, Bool-cases, inl,
  inr, ◌⊎◌, str_eq-false,
}
use brain_mate.Types.{Text, number, Op, session_revoke}
use brain_mate.Redis.{Redis, IsLawful, counter, IsCounter}
use brain_mate.Exec.{World, command}
use brain_mate.Exec.Keeps.{Keeps, On, keeps_rules, command-On, date_now-On, fetch-On}
use brain_mate.Commands.OneKey.{
  DependsOn, zadd-Keeps, zrem-Keeps, zremrangebyscore-Keeps, zcard-Keeps, zrangebyscore-Keeps,
  get-Keeps, exists-Keeps, expire-Keeps, setex-Keeps, set_nx-Keeps, del-Keeps,
}
use brain_mate.Commands.{
  zadd, zrem, zremrangebyscore, zcard, zrangebyscore, get, exists, setex, set_nx, del, incr, expire,
}
use brain_mate.Reconciliation.Keys.{
  session_version_key, idem_key, lock_key, blacklist_key, idem_ttl_secs,
}
use brain_mate.Reconciliation.Version.{
  get_session_version, bump_session_version, set_session_version, ensure_session_version,
}

-- the keys of the queue's bookkeeping are no version keys
pub idem_key_apart : (sid id : String) → str_eq (idem_key id) (session_version_key sid) ≡ false
unfolding idem_key session_version_key
idem_key_apart sid id =
    str_eq-false _ _
      (λ e. apart "session_version:" "reconciliation:i" "dem:" sid id refl refl (sym e))

pub lock_key_apart : (sid id : String) → str_eq (lock_key id) (session_version_key sid) ≡ false
unfolding lock_key session_version_key
lock_key_apart sid id =
    str_eq-false _ _
      (λ e. apart "session_version:" "reconciliation:l" "ock:" sid id refl refl (sym e))

pub blacklist_key_apart :
    (sid jti : String) → str_eq (blacklist_key jti) (session_version_key sid) ≡ false
unfolding blacklist_key session_version_key
blacklist_key_apart sid jti =
    str_eq-false _ _ (apart "blacklist:" "session_ve" "rsion:" jti sid refl refl)

module _ {S : Type 0} (R : Redis S) where
  -- The version of a session is a number, and at least `v`.
  pub record AtLeast (session_id : String) (v : ℕ) (s : S) : Type 0 where
    pub numeric : IsCounter (R.get s (session_version_key session_id))
    pub reached : v ≤ counter (R.get s (session_version_key session_id))

module _ {S : Type 0} (R : Redis S) (sid : String) (v : ℕ) where
  -- a command that leaves the key alone
  pub AtLeast-of_eq :
      (s t : S)
      → R.get t (session_version_key sid) ≡ R.get s (session_version_key sid)
      → AtLeast R sid v s
      → AtLeast R sid v t
  AtLeast-of_eq s t e a = record { numeric = rw e a.numeric; reached = rw e a.reached }

  pub AtLeast-DependsOn : DependsOn R (session_version_key sid) (AtLeast R sid v)
  AtLeast-DependsOn = record { transfer = AtLeast-of_eq }

module _ {S : Type 0} (R : Redis S) (laws : IsLawful R) (sid : String) (v : ℕ) where
  pub AtLeast-setex :
      (s : S) (other : String) (t n : ℕ)
      → counter (R.get s (session_version_key other)) ≤ n
      → AtLeast R sid v s
      → AtLeast R sid v (R.setex s (session_version_key other) t (number n))
  AtLeast-setex s other t n h a =
      elim (Bool-cases (str_eq (session_version_key other) (session_version_key sid))) [
        | inl same ↦
            let e = (eq_iff _ _).0 same in
            record {
              numeric = rw (laws.strings.get-setex, same) tt;
              reached =
                  rw (laws.strings.get-setex, same)
                    (omega (arith, ap (λ k. counter (R.get s k)) e));
            }
        | inr differs ↦ AtLeast-of_eq R sid v s _ (rw (laws.strings.get-setex, differs)) a
      ]

  AtLeast-incr_self :
      (s : S) → AtLeast R sid v s → AtLeast R sid v (R.incr s (session_version_key sid)).1
  AtLeast-incr_self s a = record {
    numeric = rw (laws.strings.get-incr_self s _ a.numeric) tt;
    reached = rw (laws.strings.get-incr_self s _ a.numeric) (omega arith);
  }

  pub AtLeast-incr :
      (s : S) (other : String)
      → AtLeast R sid v s
      → AtLeast R sid v (R.incr s (session_version_key other)).1
  AtLeast-incr s other a =
      elim (Bool-cases (str_eq (session_version_key other) (session_version_key sid))) [
        | inl same ↦ rw ((eq_iff _ _).0 same) (AtLeast-incr_self s a)
        | inr differs ↦ AtLeast-of_eq R sid v s _ (laws.strings.get-incr_ne s _ _ differs) a
      ]

  -- `setSessionVersion` writes a version only where it is above the one that it has read.
  set_outcome :
      (other : String) (n : ℕ) (w : World S)
      → ((set_session_version R other n w).1.redis ≡ w.redis)
        ⊎ ((counter (R.get w.redis (session_version_key other)) ≤ n)
            × ((set_session_version R other n w).1.redis
                ≡ R.setex w.redis (session_version_key other) idem_ttl_secs (number n)))
  unfolding set_session_version get_session_version get setex command
  set_outcome other n w = ground arith

  pub set_session_version-AtLeast :
      (other : String) (n : ℕ) → Keeps (On (AtLeast R sid v)) (set_session_version R other n)
  set_session_version-AtLeast other n = record {
    at = λ w p. elim (set_outcome other n w) [
      | inl e ↦ record { holds = rw e p.holds }
      | inr (h, e) ↦ record { holds = rw e (AtLeast-setex w.redis other idem_ttl_secs n h p.holds) }
    ];
  }

  pub incr-AtLeast :
      (other : String) → Keeps (On (AtLeast R sid v)) (incr R (session_version_key other))
  unfolding incr
  incr-AtLeast other = command-On _ (λ s h. AtLeast-incr s other h)

  -- the commands that leave the versions alone
  depends : DependsOn R (session_version_key sid) (AtLeast R sid v)
  depends = AtLeast-DependsOn R sid v

  pub zadd-AtLeast : (k : String) (n : ℕ) (m : Text) → Keeps (On (AtLeast R sid v)) (zadd R k n m)
  zadd-AtLeast = zadd-Keeps laws depends

  pub zrem-AtLeast : (k : String) (m : Text) → Keeps (On (AtLeast R sid v)) (zrem R k m)
  zrem-AtLeast = zrem-Keeps laws depends

  pub zremrangebyscore-AtLeast :
      (k : String) (n : ℕ) → Keeps (On (AtLeast R sid v)) (zremrangebyscore R k n)
  zremrangebyscore-AtLeast = zremrangebyscore-Keeps laws depends

  pub zcard-AtLeast : (k : String) → Keeps (On (AtLeast R sid v)) (zcard R k)
  zcard-AtLeast = zcard-Keeps laws depends

  pub zrangebyscore-AtLeast :
      (k : String) (top n : ℕ) → Keeps (On (AtLeast R sid v)) (zrangebyscore R k top n)
  zrangebyscore-AtLeast = zrangebyscore-Keeps laws depends

  pub get-AtLeast : (k : String) → Keeps (On (AtLeast R sid v)) (get R k)
  get-AtLeast = get-Keeps laws depends

  pub exists-AtLeast : (k : String) → Keeps (On (AtLeast R sid v)) (exists R k)
  exists-AtLeast = exists-Keeps laws depends

  pub expire-AtLeast : (k : String) → Keeps (On (AtLeast R sid v)) (expire R k idem_ttl_secs)
  expire-AtLeast k = expire-Keeps laws depends k idem_ttl_secs (omega arith)

  pub setex_idem-AtLeast :
      (id : String) (t : ℕ) (x : Text) → Keeps (On (AtLeast R sid v)) (setex R (idem_key id) t x)
  setex_idem-AtLeast id t x = setex-Keeps laws depends (idem_key id) t x (idem_key_apart sid id)

  pub setex_blacklist-AtLeast :
      (jti : String) (t : ℕ) (x : Text)
      → Keeps (On (AtLeast R sid v)) (setex R (blacklist_key jti) t x)
  setex_blacklist-AtLeast jti t x =
      setex-Keeps laws depends (blacklist_key jti) t x (blacklist_key_apart sid jti)

  pub set_nx_lock-AtLeast :
      (id : String) (t : ℕ) (x : Text) → Keeps (On (AtLeast R sid v)) (set_nx R (lock_key id) t x)
  set_nx_lock-AtLeast id t x = set_nx-Keeps laws depends (lock_key id) t x (lock_key_apart sid id)

  pub del_idem-AtLeast : (id : String) → Keeps (On (AtLeast R sid v)) (del R (idem_key id))
  del_idem-AtLeast id = del-Keeps laws depends (idem_key id) (idem_key_apart sid id)

  pub del_lock-AtLeast : (id : String) → Keeps (On (AtLeast R sid v)) (del R (lock_key id))
  del_lock-AtLeast id = del-Keeps laws depends (lock_key id) (lock_key_apart sid id)

  pub ruleset at_least = (
    keeps_rules, date_now-On, fetch-On, incr-AtLeast, set_session_version-AtLeast, zadd-AtLeast,
    zrem-AtLeast, zremrangebyscore-AtLeast, zcard-AtLeast, zrangebyscore-AtLeast, get-AtLeast,
    exists-AtLeast, expire-AtLeast, setex_idem-AtLeast, setex_blacklist-AtLeast,
    set_nx_lock-AtLeast, del_idem-AtLeast, del_lock-AtLeast,
  )

  pub bump_session_version-AtLeast :
      (other : String) → Keeps (On (AtLeast R sid v)) (bump_session_version R other)
  unfolding bump_session_version
  bump_session_version-AtLeast other = search at_least depth 9

  pub get_session_version-AtLeast :
      (other : String) → Keeps (On (AtLeast R sid v)) (get_session_version R other)
  unfolding get_session_version
  get_session_version-AtLeast other = search at_least depth 9

  pub ensure_session_version-AtLeast :
      (op : Op) → Keeps (On (AtLeast R sid v)) (ensure_session_version R op)
  unfolding ensure_session_version
  ensure_session_version-AtLeast (session_revoke s jti exp none) = search at_least
  ensure_session_version-AtLeast op = search at_least
