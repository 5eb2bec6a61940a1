-- ===== src/Crypto/Nonces.antt =====
-- `NonceCache` of core/crypto/handshake.py: handshake nonces that were seen, each with the time when
-- it was. Times are whole numbers of some small unit.
use mathlib.Core.Path.{subst}
use peerc.Common.{
  ◌≡◌, refl, sym, ◌∙◌, ℕ, ◌+◌, ◌-◌, ◌≤◌, List, [], ◌∷◌, Bool, true, false, not, Option, none, some,
  ltb, String, eq_iff, All, arith,
}
use peerc.Common.Dicts.{Dict, lookup, insert, keep_if, lookup-insert, lookup-keep_if}

pub record NonceCache : Type 0 where
  pub ttl : ℕ
  pub seen : Dict ℕ

abbrev pub is_fresh : ℕ → ℕ → ℕ → Bool
is_fresh now ttl t = not (ltb ttl (now - t))

add_unseen : NonceCache → String → ℕ → Option ℕ → NonceCache × Bool
add_unseen cache nonce now (some t) = (cache, false)
add_unseen cache nonce now none = (record cache { seen = insert nonce now cache.seen }, true)

-- The clock is read when the call is made.
unfoldable pub check_and_add : NonceCache → String → ℕ → NonceCache × Bool
unfolding add_unseen
check_and_add cache nonce now =
    let cleaned = record cache { seen = keep_if (is_fresh now cache.ttl) cache.seen } in
    add_unseen cleaned nonce now (lookup nonce cleaned.seen)

-- The cache after a list of calls.
unfoldable pub after : NonceCache → List (String × ℕ) → NonceCache
after cache [] = cache
after cache ((nonce, now) ∷ calls) = after (check_and_add cache nonce now).0 calls

-- The call at `now` does not reach past the lifetime of a nonce that was seen at `t`.
abbrev pub Within : ℕ → ℕ → String × ℕ → Type 0
Within t ttl (nonce, now) = now ≤ t + ttl

check-keeps :
    (cache : NonceCache) (nonce other : String) (t now : ℕ)
    → lookup nonce cache.seen ≡ some t
    → now ≤ t + cache.ttl
    → lookup nonce (check_and_add cache other now).0.seen ≡ some t
unfolding check_and_add
check-keeps cache nonce other t now h fits =
    let cleaned = keep_if (is_fresh now cache.ttl) cache.seen in
    let kept : lookup nonce cleaned ≡ some t =
      lookup-keep_if (is_fresh now cache.ttl) nonce cache.seen t h (ground arith) in
    ground (arith, lookup-insert other nonce now cleaned, eq_iff other nonce)

check-refuses :
    (cache : NonceCache) (nonce : String) (t now : ℕ)
    → lookup nonce cache.seen ≡ some t
    → now ≤ t + cache.ttl
    → (check_and_add cache nonce now).1 ≡ false
unfolding check_and_add
check-refuses cache nonce t now h fits =
    let cleaned = keep_if (is_fresh now cache.ttl) cache.seen in
    let kept : lookup nonce cleaned ≡ some t =
      lookup-keep_if (is_fresh now cache.ttl) nonce cache.seen t h (ground arith) in
    ground arith

check-adds :
    (cache : NonceCache) (nonce : String) (now : ℕ)
    → (check_and_add cache nonce now).1 ≡ true
    → lookup nonce (check_and_add cache nonce now).0.seen ≡ some now
unfolding check_and_add
check-adds cache nonce now h =
    let cleaned = keep_if (is_fresh now cache.ttl) cache.seen in
    ground (arith, lookup-insert nonce nonce now cleaned, eq_iff nonce nonce)

ttl-check :
    (cache : NonceCache) (nonce : String) (now : ℕ)
    → (check_and_add cache nonce now).0.ttl ≡ cache.ttl
unfolding check_and_add
ttl-check cache nonce now = ground arith

after-keeps :
    (cache : NonceCache) (nonce : String) (t : ℕ) (calls : List (String × ℕ))
    → lookup nonce cache.seen ≡ some t
    → All (Within t cache.ttl) calls
    → (lookup nonce (after cache calls).seen ≡ some t) × ((after cache calls).ttl ≡ cache.ttl)
unfolding after
after-keeps cache nonce t [] h all = (h, refl)
after-keeps cache nonce t ((other, now) ∷ calls) h all =
    let same = ttl-check cache other now in
    let (found, ttl) =
      after-keeps (check_and_add cache other now).0 nonce t calls
        (check-keeps cache nonce other t now h all.0)
        (subst (λ l. All (Within t l) calls) (sym same) all.1) in
    (found, ttl ∙ same)

-- A handshake nonce that was accepted is refused for the whole of its lifetime, whatever other
-- nonces are checked in between: a recorded handshake cannot be replayed within `ttl`.
pub nonce_refused_while_live :
    (cache : NonceCache) (nonce : String) (t now : ℕ) (calls : List (String × ℕ))
    → (check_and_add cache nonce t).1 ≡ true
    → All (Within t cache.ttl) calls
    → now ≤ t + cache.ttl
    → (check_and_add (after (check_and_add cache nonce t).0 calls) nonce now).1 ≡ false
nonce_refused_while_live cache nonce t now calls h all fits =
    let first = (check_and_add cache nonce t).0 in
    let same = ttl-check cache nonce t in
    let (found, ttl) =
      after-keeps first nonce t calls (check-adds cache nonce t h)
        (subst (λ l. All (Within t l) calls) (sym same) all) in
    check-refuses (after first calls) nonce t now found (omega arith)
