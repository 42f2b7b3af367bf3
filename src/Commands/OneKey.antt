-- ===== src/Commands/OneKey.antt =====
-- An invariant that depends on the value of one key survives every command that leaves the key
-- alone: all but SET, SETEX, DEL and INCR of that key.
use brain_mate.Common.{◌<◌}
use brain_mate.Common.{ℕ, String, ◌≡◌, Bool, true, false, str_eq}
use brain_mate.Types.{Text}
use brain_mate.Redis.{Redis, IsLawful}
use brain_mate.Exec.Keeps.{Keeps, On, command-On}
use brain_mate.Commands.{
  zadd, zrem, zcard, zrangebyscore, zremrangebyscore, get, exists, setex, set_nx, claim, del,
  expire,
}

-- The invariant `Q` depends on the value of `key` alone.
pub record DependsOn {S : Type 0} (R : Redis S) (key : String) (Q : S → Type 0) : Type 0 where
  pub transfer : (s t : S) → R.get t key ≡ R.get s key → Q s → Q t

module _ {S : Type 0} {R : Redis S} (laws : IsLawful R) {Q : S → Type 0} {key : String}
    (depends : DependsOn R key Q) where
  pub zadd-Keeps : (k : String) (n : ℕ) (m : Text) → Keeps (On Q) (zadd R k n m)
  unfolding zadd
  zadd-Keeps k n m =
      command-On _ (λ s q. depends.transfer s _ (laws.strings.get-zadd s k n m key) q)

  pub zrem-Keeps : (k : String) (m : Text) → Keeps (On Q) (zrem R k m)
  unfolding zrem
  zrem-Keeps k m = command-On _ (λ s q. depends.transfer s _ (laws.strings.get-zrem s k m key) q)

  pub zremrangebyscore-Keeps : (k : String) (n : ℕ) → Keeps (On Q) (zremrangebyscore R k n)
  unfolding zremrangebyscore
  zremrangebyscore-Keeps k n =
      command-On _ (λ s q. depends.transfer s _ (laws.strings.get-zremrangebyscore s k n key) q)

  pub zcard-Keeps : (k : String) → Keeps (On Q) (zcard R k)
  unfolding zcard
  zcard-Keeps k = command-On _ (λ s q. q)

  pub zrangebyscore-Keeps : (k : String) (top n : ℕ) → Keeps (On Q) (zrangebyscore R k top n)
  unfolding zrangebyscore
  zrangebyscore-Keeps k top n = command-On _ (λ s q. q)

  pub get-Keeps : (k : String) → Keeps (On Q) (get R k)
  unfolding get
  get-Keeps k = command-On _ (λ s q. q)

  pub exists-Keeps : (k : String) → Keeps (On Q) (exists R k)
  unfolding exists
  exists-Keeps k = command-On _ (λ s q. q)

  pub expire-Keeps : (k : String) (t : ℕ) → 0 < t → Keeps (On Q) (expire R k t)
  unfolding expire
  expire-Keeps k t p =
      command-On _ (λ s q. depends.transfer s _ (laws.strings.get-expire s k t key p) q)

  setex_stable :
      (s : S) (k : String) (t : ℕ) (v : Text) → str_eq k key ≡ false → Q s → Q (R.setex s k t v)
  setex_stable s k t v h q = depends.transfer s _ (rw (laws.strings.get-setex, h)) q

  pub setex-Keeps :
      (k : String) (t : ℕ) (v : Text) → str_eq k key ≡ false → Keeps (On Q) (setex R k t v)
  unfolding setex
  setex-Keeps k t v h = command-On _ (λ s q. setex_stable s k t v h q)

  claim_stable :
      (b : Bool) (s : S) (k : String) (t : ℕ) (v : Text)
      → str_eq k key ≡ false
      → Q s
      → Q (claim R b s k t v).1
  unfolding claim
  claim_stable true s k t v h q = q
  claim_stable false s k t v h q = setex_stable s k t v h q

  pub set_nx-Keeps :
      (k : String) (t : ℕ) (v : Text) → str_eq k key ≡ false → Keeps (On Q) (set_nx R k t v)
  unfolding set_nx
  set_nx-Keeps k t v h = command-On _ (λ s q. claim_stable _ s k t v h q)

  pub del-Keeps : (k : String) → str_eq k key ≡ false → Keeps (On Q) (del R k)
  unfolding del
  del-Keeps k h = command-On _ (λ s q. depends.transfer s _ (rw (laws.strings.get-del, h)) q)

pub ruleset one_key = (
  zadd-Keeps, zrem-Keeps, zremrangebyscore-Keeps, zcard-Keeps, zrangebyscore-Keeps, get-Keeps,
  exists-Keeps, expire-Keeps, setex-Keeps, set_nx-Keeps, del-Keeps,
)
