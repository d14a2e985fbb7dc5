-- ===== src/Infrastructure/Cache/Lookup.antt =====
-- What a lookup answers with: a valid dump, and the newest one.
use reprodb.Common.{
  ◌≤◌, ◌≡◌, refl, ap, ◌∙◌, inl, inr, true, false, Option, none, List, [], ◌∷◌, arith, All, In,
  Result, ok, err, >>=-elim, map_err, Bool-cases,
}
use reprodb.Common.Sorting.{sort_by, Sorted, All-sort_by, All-unsort, sort_by-Sorted, All-mono}
use reprodb.Domain.Artifact.{DumpArtifactMetadata}
use reprodb.Infrastructure.CacheTree.{Libraries, CacheTree}
use reprodb.Infrastructure.ArtifactStore.{
  PublishedDumpArtifact, LocatedDumpArtifact, list_complete, list_complete_for_profile,
}
use reprodb.Infrastructure.CacheHit.{
  CacheLookup, ValidatedCacheHit, CacheMissReason, CacheLookupResult, hit, CacheError, store,
  validate_candidate, hit_of,
}
use reprodb.Infrastructure.Cache.{
  CacheCandidate, Added, accepted, always_accepted, accept_located, gather, newer, choose,
  look_up_among, lookup, lookup_by_database, itself, artifact_of, get_or_insert, choose_on,
}
use reprodb.Infrastructure.Cache.Validation.{
  HasDump, Answers, IsReadable, IsHit, validate_candidate-IsValidated, validate_candidate-IsHit,
  validate_candidate_complete,
}
use reprodb.Infrastructure.Cache.Gathering.{
  Accepts, examine-IsReadable, examine-readable, gather-All, gather-In,
}

-- The answer is a hit that is no older than another one.
pub record IsNewest (result : CacheLookupResult) (other : DumpArtifactMetadata) : Type 0 where
  pub newest_hit : ValidatedCacheHit
  pub is_hit : result ≡ hit newest_hit
  pub no_older : other.completed_at_unix_seconds ≤ newest_hit.metadata.completed_at_unix_seconds

module _ (lib : Libraries) (request : CacheLookup) (unread : Option CacheMissReason) where
  abbrev validated : CacheCandidate → Result CacheError (Result CacheMissReason ValidatedCacheHit)
  validated c = validate_candidate lib request c.artifact c.metadata

  -- A hit is one of the candidates, and passed the validation.
  choose-IsHit :
      (newest : Option CacheMissReason) (cs : List CacheCandidate) (h : ValidatedCacheHit)
      → All (IsReadable lib) cs
      → choose lib request unread newest cs ≡ ok (hit h)
      → IsHit lib request h
  unfolding choose
  choose-IsHit newest [] h readable e = absurd (cc)
  choose-IsHit newest (c ∷ cs) h (r, readable) e =
      >>=-elim (validated c) _ e λ answer v w. on (λ n. choose-IsHit n cs h readable) answer v w
    where
      on :
          ((n : Option CacheMissReason)
            → choose lib request unread n cs ≡ ok (hit h)
            → IsHit lib request h)
          → (answer : Result CacheMissReason ValidatedCacheHit) → validated c ≡ ok answer
          → choose_on answer (λ reason. choose lib request unread (get_or_insert newest reason) cs)
            ≡ ok (hit h)
          → IsHit lib request h
      on rest (ok found) v w = validate_candidate-IsHit lib request c.artifact c.metadata h r (cc)
      on rest (err reason) v w = rest (get_or_insert newest reason) w

  abbrev Beaten : CacheLookupResult → CacheCandidate → Type 0
  Beaten result c = (h : ValidatedCacheHit) → validated c ≡ ok (ok h) → IsNewest result h.metadata

  validated-metadata :
      (c : CacheCandidate) (h : ValidatedCacheHit)
      → validated c ≡ ok (ok h)
      → h.metadata ≡ c.metadata
  validated-metadata c h v =
      ap (λ (h : ValidatedCacheHit). h.metadata)
        (validate_candidate-IsValidated lib request c.artifact c.metadata h v).itself_is

  choose-Beaten :
      (newest : Option CacheMissReason) (cs : List CacheCandidate) (result : CacheLookupResult)
      → Sorted newer cs
      → choose lib request unread newest cs ≡ ok result
      → All (Beaten result) cs
  unfolding choose
  choose-Beaten newest [] result s e = tt
  choose-Beaten newest (c ∷ cs) result (least, s) e =
      >>=-elim (validated c) _ e λ answer v w. on (λ n. choose-Beaten n cs result s) answer v w
    where
      on :
          ((n : Option CacheMissReason)
            → choose lib request unread n cs ≡ ok result
            → All (Beaten result) cs)
          → (answer : Result CacheMissReason ValidatedCacheHit) → validated c ≡ ok answer
          → choose_on answer (λ reason. choose lib request unread (get_or_insert newest reason) cs)
            ≡ ok result
          → All (Beaten result) (c ∷ cs)
      on rest (ok found) v w = (
        (λ h v₁. record { newest_hit = found; is_hit = cc; no_older = omega (arith, same h v₁) }),
        All-mono (λ x. newer x c ≡ false) cs
            (λ x older h v₁. record {
              newest_hit = found;
              is_hit = cc;
              no_older =
                  rw (validated-metadata x h v₁, validated-metadata c found v)
                    (ground (arith, older));
            })
            least,
      )
        where
          same :
              (h : ValidatedCacheHit)
              → validated c ≡ ok (ok h)
              → h.metadata.completed_at_unix_seconds ≡ found.metadata.completed_at_unix_seconds
          same h v₁ = cc (validated-metadata c h v₁, validated-metadata c found v)
      on rest (err reason) v w = ((λ h v₁. absurd (cc)), rest (get_or_insert newest reason) w)

newer-asymmetric : (x y : CacheCandidate) → newer x y ≡ true → newer y x ≡ false
newer-asymmetric x y h = ground (arith, h)

newer-transitive :
    (x y z : CacheCandidate) → newer y x ≡ false → newer z y ≡ false → newer z x ≡ false
newer-transitive x y z h k = ground (arith, h, k)

-- Both lookups.
module _ {A : Type 0} (lib : Libraries) (request : CacheLookup)
    (artifact_of : A → PublishedDumpArtifact) (accept : A → DumpArtifactMetadata → Added)
    (faithful : (item : A) → Accepts lib artifact_of accept item) where
  look_up_among-IsHit :
      (items : List A) (h : ValidatedCacheHit)
      → look_up_among lib request artifact_of accept items ≡ ok (hit h)
      → IsHit lib request h
  unfolding look_up_among
  look_up_among-IsHit [] h e = absurd (cc)
  look_up_among-IsHit (item ∷ items) h e =
      >>=-elim (gather lib artifact_of accept _ (item ∷ items)) _ e λ g got w.
        choose-IsHit lib request g.unreadable_metadata none (sort_by newer g.candidates) h
          (All-sort_by newer (IsReadable lib) g.candidates (
            gather-All lib artifact_of accept (IsReadable lib) _ (item ∷ items) g
              (λ i c. examine-IsReadable lib artifact_of accept i c (faithful i)) tt got))
          w

  look_up_among-IsNewest :
      (items : List A) (result : CacheLookupResult) (item : A) (metadata : DumpArtifactMetadata)
      (h : ValidatedCacheHit)
      → look_up_among lib request artifact_of accept items ≡ ok result
      → In item items
      → IsReadable lib (record { artifact = artifact_of item; metadata = metadata })
      → accept item metadata
        ≡ accepted (record { artifact = artifact_of item; metadata = metadata })
      → validate_candidate lib request (artifact_of item) metadata ≡ ok (ok h)
      → IsNewest result h.metadata
  unfolding look_up_among
  look_up_among-IsNewest [] result item metadata h e i r a v = elim i [ ]
  look_up_among-IsNewest (first ∷ items) result item metadata h e i r a v =
      >>=-elim (gather lib artifact_of accept _ (first ∷ items)) _ e λ g got w.
        gather-In lib artifact_of accept (Beaten lib request g.unreadable_metadata result) _
          (first ∷ items) g item _ got
          (All-unsort newer (Beaten lib request g.unreadable_metadata result) g.candidates (
            choose-Beaten lib request g.unreadable_metadata none (sort_by newer g.candidates) result
              (sort_by-Sorted newer newer-asymmetric newer-transitive g.candidates) w))
          i (examine-readable lib artifact_of accept item metadata r ∙ ap ok a) h v

itself-Accepts :
    (lib : Libraries) (item : PublishedDumpArtifact) → Accepts lib itself always_accepted item
itself-Accepts lib item metadata c h = cc

located-Accepts :
    (lib : Libraries) (request : CacheLookup) (item : LocatedDumpArtifact)
    → Accepts lib artifact_of (accept_located request) item
unfolding accept_located
located-Accepts lib request item metadata c h = ground (arith, h)

module _ (lib : Libraries) (tree : CacheTree) (request : CacheLookup) where
  -- A hit of `lookup` can be read, is what the request asks for, has not expired, and its dump has
  -- the size and the checksum that its metadata state; its age is the time since it was completed.
  pub lookup-IsHit :
      (h : ValidatedCacheHit) → lookup lib tree request ≡ ok (hit h) → IsHit lib request h
  unfolding lookup
  lookup-IsHit h e = elim (Bool-cases request.fresh) [
    | inl f ↦ absurd (ground (arith, e, f))
    | inr f ↦
        >>=-elim (map_err store (list_complete lib tree request.profile request.database)) _
          (rw f at e)
          λ artifacts l w.
            look_up_among-IsHit lib request itself always_accepted (itself-Accepts lib) artifacts h
              w
  ]

  -- A hit of `lookup_by_database` satisfies the same.
  pub lookup_by_database-IsHit :
      (h : ValidatedCacheHit)
      → lookup_by_database lib tree request ≡ ok (hit h)
      → IsHit lib request h
  unfolding lookup_by_database
  lookup_by_database-IsHit h e = elim (Bool-cases request.fresh) [
    | inl f ↦ absurd (ground (arith, e, f))
    | inr f ↦
        >>=-elim (map_err store (list_complete_for_profile lib tree request.profile)) _ (rw f at e)
          λ artifacts l w.
            look_up_among-IsHit lib request artifact_of (accept_located request)
              (located-Accepts lib request) artifacts h w
  ]

  -- Where `lookup` finishes without an error, and among the artifacts that the store lists there is
  -- one that can be read, that is what the request asks for, has not expired and has an intact dump,
  -- its answer is a hit, and one that was completed no earlier.
  pub lookup-IsNewest :
      (artifacts : List PublishedDumpArtifact) (result : CacheLookupResult)
      (artifact : PublishedDumpArtifact) (metadata : DumpArtifactMetadata)
      → request.fresh ≡ false
      → list_complete lib tree request.profile request.database ≡ ok artifacts
      → lookup lib tree request ≡ ok result
      → In artifact artifacts
      → IsReadable lib (record { artifact = artifact; metadata = metadata })
      → metadata.dump_id ≡ artifact.dump_id
      → Answers request metadata
      → HasDump lib metadata artifact.files.dump
      → IsNewest result metadata
  unfolding lookup
  lookup-IsNewest artifacts result artifact metadata f l e i readable same_id answers dump =
      look_up_among-IsNewest lib request itself always_accepted (itself-Accepts lib) artifacts
        result artifact metadata (hit_of request artifact metadata) (rw (f, l) at e) i readable refl
        (validate_candidate_complete lib request artifact metadata same_id answers dump)
