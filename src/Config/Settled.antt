-- ===== src/Config/Settled.antt =====
-- `Validate` leaves a configuration alone that is complete and valid.
use crawlbox.Common.{
  ℕ, ◌≡◌, ◌≢◌, ◌≤◌, refl, sym, false, List, [], ◌∷◌, Text, All, any, eq_text, eq_text_iff, arith,
  ltb, codes,
}
use crawlbox.Common.Int.{ℤ, pos, negsuc}
use crawlbox.Common.Result.{ok}
use crawlbox.Config.{
  Source, Config, Surroundings, below_one, filled, validate_source, validate_sources, validate,
  or_text, or_int, or_nat, abs_path,
}
use crawlbox.Config.Bounds.{IsUsable, IsValid, AreDistinct}

or_int_kept : (z : ℤ) (d : ℕ) → below_one z ≡ false → or_int z d ≡ z
or_int_kept (pos n) d h = rw h
or_int_kept (negsuc n) d h = cc

or_nat_kept : (n d : ℕ) → n ≢ 0 → or_nat n d ≡ n
or_nat_kept n d h = ground arith

or_text_kept : (t d : Text) → t ≢ [] → or_text t d ≡ t
or_text_kept [] d h = absurd (h refl)
or_text_kept (c ∷ cs) d h = refl

nonempty : (t : Text) → t ≢ [] → eq_text t [] ≡ false
nonempty t h = ground (arith, eq_text_iff t [])

within : (n : ℕ) → n ≤ 2048 → ltb 2048 n ≡ false
within n h = ground arith

module _ (outside : Surroundings) where
  filled_kept : (s : Source) → IsUsable outside s → filled outside s ≡ s
  filled_kept s u = rw (
    sym u.mapped,
    or_int_kept s.timeout 7200000000000 u.timed,
    or_nat_kept s.memory_mb 512 u.some_memory,
    or_int_kept s.staging_bytes 107374182400 u.staged,
    or_int_kept s.state_bytes 1048576 u.stated,
    or_int_kept s.download_parallel 4 u.parallel,
    or_text_kept s.timezone (codes "UTC") u.zoned,
  )

  source_kept :
      (seen : List Text) (s : Source)
      → any (eq_text s.id) seen ≡ false
      → IsUsable outside s
      → validate_source outside seen s ≡ ok s
  unfolding validate_source
  source_kept seen s fresh u = rw (
    filled_kept s u,
    or_int_kept s.timeout 7200000000000 u.timed,
    or_nat_kept s.memory_mb 512 u.some_memory,
    or_int_kept s.staging_bytes 107374182400 u.staged,
    or_int_kept s.state_bytes 1048576 u.stated,
    or_int_kept s.download_parallel 4 u.parallel,
    or_text_kept s.timezone (codes "UTC") u.zoned,
    u.named,
    fresh,
    nonempty s.plugin u.plugged,
    u.pinned,
    u.timed,
    within s.memory_mb u.small_memory,
    u.staged,
    u.stated,
    u.parallel,
    u.located,
    u.scheduled,
    u.exact_hosts,
    u.encoded,
  )

  sources_kept :
      (seen : List Text) (ss : List Source)
      → AreDistinct seen ss
      → All (IsUsable outside) ss
      → validate_sources outside seen ss ≡ ok ss
  unfolding validate_sources
  sources_kept seen [] distinct usable = refl
  sources_kept seen (s ∷ ss) distinct usable =
      rw (source_kept seen s distinct.0 usable.0, sources_kept (s.id ∷ seen) ss distinct.1 usable.1)

  -- A valid configuration that leaves nothing of its top level out is accepted as it is, but for
  -- the data directory, which becomes absolute.
  pub validate_valid :
      (c : Config)
      → IsValid outside c
      → c.listen ≢ []
      → c.data_dir ≢ []
      → c.kopia_binary ≢ []
      → validate outside c ≡ ok (record c { data_dir = abs_path outside.working_dir c.data_dir })
  unfolding validate
  validate_valid c v listens stored kopia = rw (
    or_int_kept c.cache_bytes 21474836480 v.cached,
    or_int_kept c.parallel 1 v.parallel,
    v.cached,
    v.parallel,
    nonempty c.credentials v.secured,
    nonempty c.kopia_config v.configured,
    sources_kept [] c.sources v.distinct v.usable,
    or_text_kept c.listen (codes ":8080") listens,
    or_text_kept c.data_dir (codes "data") stored,
    or_text_kept c.kopia_binary (codes "kopia") kopia,
  )
