-- ===== src/Redis/LinkCache/Laws.antt =====
-- link_cache.go: what the methods do to what the cache knows.
use youpass_share_service.Base.{
  Bool-cases, Bytes, Option, Option-cases, ap, arith, bytes_eq, false, fun_ext, if◌then◌else◌, inl,
  inr, none, refl, some, subst, sym, true, true≢false, ℕ, ◌==◌, ◌∙◌, ◌≡◌, ◌≢◌, ◌⊎◌, nat_eq,
  bytes_eq_instance,
}
use youpass_share_service.Domain.Error.{
  Error, cache_miss, eq_of_err_is, err_is, err_is_refl, link_not_found,
}
use youpass_share_service.Domain.Link.{Link}
use youpass_share_service.Outcome.{Outcome, Post, Post-by, Post-handle, Post-mono, ret, throw}
use youpass_share_service.Share.Contract.{
  Agrees, CacheLaws, Entry, IsFault, absent, missing, present, put,
}
use youpass_share_service.Redis.{Redis, RedisLaws, assign}
use youpass_share_service.Redis.LinkCache.{
  Codec, LinkRecord, cache_link, cache_not_found, cached_link, decode_link, drop_link, link_key,
  link_ttl, not_found_mark, not_found_ttl, redis_links, to_domain, to_record, with_jitter,
}

-- What encoding/json does with the records: it reads what it has written, which is never the mark
-- of a missing link.
pub record CodecLaws (codec : Codec) : Type 0 where
  pub read_back :
      (r : LinkRecord) (b : Bytes) → codec.marshal r ≡ inr b → codec.unmarshal b ≡ some r
  pub unmarked :
      (r : LinkRecord) (b : Bytes) → codec.marshal r ≡ inr b → bytes_eq b not_found_mark ≡ false

link_key_same : (c d : Bytes) → bytes_eq (link_key c) (link_key d) ≡ bytes_eq c d
unfolding link_key bytes_eq
link_key_same c d = refl

module _ {S : Type 0} (redis : Redis S) (laws : RedisLaws redis) (codec : Codec)
    (codec_laws : CodecLaws codec) (rand : ℕ → ℕ) where
  abbrev pub reading : Bytes → Entry
  reading raw =
      if raw == not_found_mark
      then missing
      else (elim (codec.unmarshal raw) [ none ↦ absent | some r ↦ present (to_domain r) ])

  -- What a value in Redis says of a code.
  abbrev pub meaning : Option Bytes → Entry
  meaning none = absent
  meaning (some raw) = reading raw

  abbrev pub known_of : S → Bytes → Entry
  known_of s code = meaning (laws.value s (link_key code))

  abbrev as_known : (Bytes → Option Bytes) → Bytes → Entry
  as_known t d = meaning (t (link_key d))

  known_of-assign :
      (t : Bytes → Option Bytes) (code : Bytes) (v : Option Bytes)
      → (λ (d : Bytes). meaning (assign t (link_key code) v (link_key d)))
        ≡ put (λ (d : Bytes). meaning (t (link_key d))) code (meaning v)
  known_of-assign t code v = fun_ext (λ d. pointwise d (Bool-cases (bytes_eq code d)))
    where
      pointwise :
          (d : Bytes)
          → (bytes_eq code d ≡ true) ⊎ (bytes_eq code d ≡ false)
          → meaning (assign t (link_key code) v (link_key d))
            ≡ put (λ (x : Bytes). meaning (t (link_key x))) code (meaning v) d
      pointwise d (inl e) = rw (link_key_same, e) refl
      pointwise d (inr e) = rw (link_key_same, e) refl

  -- A write of a key, done or perhaps done, as the cache sees it.
  seen :
      (s s' : S) (code : Bytes) (v : Option Bytes)
      → laws.value s' ≡ assign (laws.value s) (link_key code) v
      → known_of s' ≡ put (known_of s) code (meaning v)
  seen s s' code v e = ap as_known e ∙ known_of-assign (laws.value s) code v

  unseen : (s s' : S) → laws.value s' ≡ laws.value s → known_of s' ≡ known_of s
  unseen s s' e = ap as_known e

  perhaps_seen :
      (s s' : S) (code : Bytes) (v : Option Bytes)
      → (laws.value s' ≡ laws.value s) ⊎ (laws.value s' ≡ assign (laws.value s) (link_key code) v)
      → (known_of s' ≡ known_of s) ⊎ (known_of s' ≡ put (known_of s) code (meaning v))
  perhaps_seen s s' code v (inl e) = inl (unseen s s' e)
  perhaps_seen s s' code v (inr e) = inr (seen s s' code v e)

  marked : meaning (some not_found_mark) ≡ missing
  unfolding bytes_eq
  marked = refl

  -- What `Get` makes of the value of the code's key.
  abbrev pub Reads : Bytes → S → Outcome S Link → Type 0
  Reads code s o =
      Post o (λ l s'. (known_of s code ≡ present l) × (known_of s' ≡ known_of s))
        (λ e s'.
          (((e ≡ link_not_found) × (known_of s code ≡ missing))
            ⊎ (((e ≡ cache_miss) × (known_of s code ≡ absent)) ⊎ IsFault e))
          × (known_of s' ≡ known_of s))

  decoded :
      (code raw : Bytes) (s s' : S)
      → laws.value s (link_key code) ≡ some raw
      → known_of s' ≡ known_of s
      → Reads code s (decode_link redis codec rand raw s')
  unfolding decode_link
  decoded code raw s s' at same = elim (Bool-cases (raw == not_found_mark)) [
    | inl e ↦
        Post-by _ _ (decode_link redis codec rand raw s') (throw link_not_found s')
          (ground (arith, e)) (inl (refl, ap meaning at ∙ rw e refl), same)
    | inr e ↦ elim (Option-cases (codec.unmarshal raw)) [
      | inl u ↦
          Post-by _ _ (decode_link redis codec rand raw s') (throw cache_miss s')
            (ground (arith, e, u)) (inr (inl (refl, ap meaning at ∙ rw (e, u) refl)), same)
      | inr (r, u) ↦
          Post-by _ _ (decode_link redis codec rand raw s') (ret (to_domain r) s')
            (ground (arith, e, u)) (ap meaning at ∙ rw (e, u) refl, same)
    ]
  ]

  not_read :
      (code : Bytes) (s s' : S) (e : Error)
      → ((e ≡ redis.nil_error) × (laws.value s (link_key code) ≡ none))
        ⊎ (IsFault e × (e ≢ redis.nil_error))
      → known_of s' ≡ known_of s
      → Reads code s ((if err_is e redis.nil_error then throw cache_miss else throw e) s')
  not_read code s s' e why same = elim (Bool-cases (err_is e redis.nil_error)) [
    | inl p ↦
        rw p (inr (inl (refl, ap meaning (vacant (eq_of_err_is e redis.nil_error p) why))), same)
    | inr p ↦ rw p (inr (inr (fault p why)), same)
  ]
    where
      vacant :
          e ≡ redis.nil_error
          → ((e ≡ redis.nil_error) × (laws.value s (link_key code) ≡ none))
            ⊎ (IsFault e × (e ≢ redis.nil_error))
          → laws.value s (link_key code) ≡ none
      vacant q (inl (_, at)) = at
      vacant q (inr (_, other)) = absurd (other q)

      fault :
          err_is e redis.nil_error ≡ false
          → ((e ≡ redis.nil_error) × (laws.value s (link_key code) ≡ none))
            ⊎ (IsFault e × (e ≢ redis.nil_error))
          → IsFault e
      fault q (inl (same_error, _)) = absurd (
          true≢false (
            sym (err_is_refl redis.nil_error)
            ∙ ap (λ (x : Error). err_is x redis.nil_error) (sym same_error)
            ∙ q))
      fault q (inr (f, _)) = f

  -- On a Redis and a JSON codec as documented: `Get` returns a link exactly as the code's value in
  -- Redis says, ErrLinkNotFound for the mark of a missing link, ErrCacheMiss where there is no
  -- value or one that cannot be read, or a fault; it changes no entry.
  pub cached_link_lem : (code : Bytes) (s : S) → Reads code s (cached_link redis codec rand code s)
  unfolding cached_link
  cached_link_lem code s = Post-handle _ _ (redis.get (link_key code)) _ _ s (
      Post-mono _ _ _ _ (redis.get (link_key code) s) (laws.read (link_key code) s)
        (λ raw s' (at, same). decoded code raw s s' at (unseen s s' same))
        (λ e s' (why, same). not_read code s s' e why (unseen s s' same)))

  stored :
      (l : Link) (b : Bytes)
      → codec.marshal (to_record l) ≡ inr b
      → meaning (some b) ≡ present (to_domain (to_record l))
  stored l b p =
      rw (codec_laws.unmarked (to_record l) b p, codec_laws.read_back (to_record l) b p) refl

  -- The entry of the code is x now, or a failed write has left it as it was.
  abbrev pub Writes : Bytes → Entry → S → Outcome S (Unit {0}) → Type 0
  Writes code x s o =
      Post o (λ _ s'. known_of s' ≡ put (known_of s) code x)
        (λ _ s'. (known_of s' ≡ known_of s) ⊎ (known_of s' ≡ put (known_of s) code x))

  -- On a Redis and a JSON codec as documented: after `Set`, the entry of the link's code is the
  -- link but for the counter of its views, and all other codes are as before; a failed `Set` may
  -- have done that or nothing.
  pub cache_link_lem :
      (l : Link) (s : S)
      → (m : Link) × Agrees m l × Writes l.code (present m) s (cache_link redis codec rand l s)
  unfolding cache_link to_record to_domain
  cache_link_lem l s = (to_domain (to_record l), (0, refl), go (codec.marshal (to_record l)) refl)
    where
      go :
          (r : Error ⊎ Bytes)
          → codec.marshal (to_record l) ≡ r
          → Post
              (cache_link redis codec rand l s)
              (λ _ s'. known_of s' ≡ put (known_of s) l.code (present (to_domain (to_record l))))
              (λ _ s'.
                (known_of s' ≡ known_of s)
                ⊎ (known_of s' ≡ put (known_of s) l.code (present (to_domain (to_record l)))))
      go (inl e) p =
          Post-by _ _ (cache_link redis codec rand l s) (throw e s) (ground (arith, p)) (inl refl)
      go (inr b) p =
          Post-by _ _ (cache_link redis codec rand l s)
            (redis.set (link_key l.code) b (with_jitter rand link_ttl) s) (ground (arith, p))
            (Post-mono _ _ _ _ (redis.set (link_key l.code) b (with_jitter rand link_ttl) s)
              (laws.written (link_key l.code) b (with_jitter rand link_ttl) s)
              (λ _ s' e. seen s s' l.code (some b) e ∙ ap (put (known_of s) l.code) (stored l b p))
              (λ _ s' e.
                subst
                  (λ (x : Entry).
                    (known_of s' ≡ known_of s) ⊎ (known_of s' ≡ put (known_of s) l.code x))
                  (stored l b p) (perhaps_seen s s' l.code (some b) e)))

  -- On a Redis as documented: after `SetNotFound`, the code is known to be missing and all other
  -- codes are as before; a failed one may have done that or nothing.
  pub cache_not_found_lem :
      (code : Bytes) (s : S) → Writes code missing s (cache_not_found redis codec rand code s)
  unfolding cache_not_found
  cache_not_found_lem code s =
      Post-mono _ _ _ _ (redis.set (link_key code) not_found_mark not_found_ttl s)
        (laws.written (link_key code) not_found_mark not_found_ttl s)
        (λ _ s' e. seen s s' code (some not_found_mark) e ∙ ap (put (known_of s) code) marked)
        (λ _ s' e.
          subst
            (λ (x : Entry). (known_of s' ≡ known_of s) ⊎ (known_of s' ≡ put (known_of s) code x))
            marked (perhaps_seen s s' code (some not_found_mark) e))

  -- On a Redis as documented: after the first delete of `Invalidate`, the code has no entry and
  -- all other codes are as before; a failed one may have done that or nothing.
  pub drop_link_lem :
      (code : Bytes) (s : S) → Writes code absent s (drop_link redis codec rand code s)
  unfolding drop_link
  drop_link_lem code s =
      Post-mono _ _ _ _ (redis.del (link_key code) s) (laws.deleted (link_key code) s)
        (λ _ s' e. seen s s' code none e) (λ _ s' e. perhaps_seen s s' code none e)

  -- Redis as a cache of links, for the use cases.
  abbrev pub redis_cache_lawful : CacheLaws (redis_links redis codec rand)
  redis_cache_lawful = record {
    entry = known_of;
    get_lem = cached_link_lem;
    set_lem = cache_link_lem;
    set_not_found_lem = cache_not_found_lem;
    invalidate_lem = drop_link_lem;
  }
