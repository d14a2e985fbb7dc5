-- ===== src/Infrastructure/Cache/Gathering.antt =====
-- The loop that takes the leases and reads the metadata.
use mathlib.Core.Path.{subst}
use reprodb.Common.{
  ◌≡◌, refl, sym, List, [], ◌∷◌, ◌++◌, All, All-append, In, here, there, Result, ok, err, >>=-elim,
}
use reprodb.Domain.Artifact.{DumpArtifactMetadata}
use reprodb.Infrastructure.CacheTree.{Libraries}
use reprodb.Infrastructure.ArtifactLock.{
  ArtifactLeaseError, lease_not_found, lease_busy, lease_io, try_acquire_lease,
}
use reprodb.Infrastructure.ArtifactStore.{PublishedDumpArtifact}
use reprodb.Infrastructure.CacheHit.{CacheMissReason, CacheError, read_metadata}
use reprodb.Infrastructure.Cache.{
  CacheCandidate, Gathered, Added, skipped, rejected, accepted, add, examine_leased, read_leased,
  examine, gather,
}
use reprodb.Infrastructure.Cache.Validation.{IsReadable}

-- What one artifact adds is a candidate that can be read.
module _ {A : Type 0} (lib : Libraries) (artifact_of : A → PublishedDumpArtifact)
    (accept : A → DumpArtifactMetadata → Added) where
  abbrev pub Accepts : A → Type 0
  Accepts item =
      (metadata : DumpArtifactMetadata) (c : CacheCandidate)
      → accept item metadata ≡ accepted c
      → c ≡ record { artifact = artifact_of item; metadata = metadata }

  pub examine-IsReadable :
      (item : A) (c : CacheCandidate)
      → Accepts item
      → examine lib artifact_of accept item ≡ ok (accepted c)
      → IsReadable lib c
  unfolding examine
  examine-IsReadable item c faithful h = leased (try_acquire_lease (artifact_of item).files) refl h
    where
      opened :
          (r : Result CacheError (Result CacheMissReason DumpArtifactMetadata))
          → read_metadata lib (artifact_of item).files.metadata ≡ r
          → try_acquire_lease (artifact_of item).files ≡ ok tt
          → read_leased accept item r ≡ ok (accepted c)
          → IsReadable lib c
      opened (err e) d l w = absurd (cc)
      opened (ok (err reason)) d l w = absurd (cc)
      opened (ok (ok metadata)) d l w =
          subst (IsReadable lib) (sym (faithful metadata c (cc))) (record { leased = l; read = d })

      leased :
          (r : Result ArtifactLeaseError (Unit {0}))
          → try_acquire_lease (artifact_of item).files ≡ r
          → examine_leased lib accept item (artifact_of item).files r ≡ ok (accepted c)
          → IsReadable lib c
      leased (err lease_not_found) l w = absurd (cc)
      leased (err lease_busy) l w = absurd (cc)
      leased (err lease_io) l w = absurd (cc)
      leased (ok u) l w = opened (read_metadata lib (artifact_of item).files.metadata) refl l w

  -- An artifact that can be read is a candidate where the lookup accepts it.
  pub examine-readable :
      (item : A) (metadata : DumpArtifactMetadata)
      → IsReadable lib (record { artifact = artifact_of item; metadata = metadata })
      → examine lib artifact_of accept item ≡ ok (accept item metadata)
  unfolding examine
  examine-readable item metadata r = rw (r.leased, r.read) refl

  -- What holds of every candidate that the loop ends with holds of those it began with, and of each
  -- one that an artifact adds.
  module _ {κ} (P : CacheCandidate → Type κ) where
    pub gather-All :
        (gathered : Gathered) (items : List A) (g : Gathered)
        → ((item : A) (c : CacheCandidate)
            → examine lib artifact_of accept item ≡ ok (accepted c)
            → P c)
        → All P gathered.candidates
        → gather lib artifact_of accept gathered items ≡ ok g
        → All P g.candidates
    unfolding gather
    gather-All gathered [] g p start h =
        subst (λ (g : Gathered). All P g.candidates) {x = gathered} {y = g} (cc) start
    gather-All gathered (item ∷ items) g p start h =
        >>=-elim (examine lib artifact_of accept item) _ h
          λ added e w. gather-All (add added gathered) items g p (grown added e) w
      where
        grown :
            (added : Added)
            → examine lib artifact_of accept item ≡ ok added
            → All P (add added gathered).candidates
        grown skipped e = start
        grown (rejected reason) e = start
        grown (accepted c) e = All-append P gathered.candidates (c ∷ []) start (p item c e, tt)

    All-left : (xs ys : List CacheCandidate) → All P (xs ++ ys) → All P xs
    All-left [] ys h = tt
    All-left (x ∷ xs) ys (px, h) = (px, All-left xs ys h)

    All-right : (xs ys : List CacheCandidate) → All P (xs ++ ys) → All P ys
    All-right [] ys h = h
    All-right (x ∷ xs) ys (px, h) = All-right xs ys h

    add-All :
        (added : Added) (gathered : Gathered)
        → All P (add added gathered).candidates
        → All P gathered.candidates
    add-All skipped gathered h = h
    add-All (rejected reason) gathered h = h
    add-All (accepted c) gathered h = All-left gathered.candidates (c ∷ []) h

    gather-start :
        (gathered : Gathered) (items : List A) (g : Gathered)
        → gather lib artifact_of accept gathered items ≡ ok g
        → All P g.candidates
        → All P gathered.candidates
    unfolding gather
    gather-start gathered [] g h final =
        subst (λ (g : Gathered). All P g.candidates) {x = g} {y = gathered} (cc) final
    gather-start gathered (item ∷ items) g h final =
        >>=-elim (examine lib artifact_of accept item) _ h
          λ added e w. add-All added gathered (gather-start (add added gathered) items g w final)

    pub gather-In :
        (gathered : Gathered) (items : List A) (g : Gathered) (item : A) (c : CacheCandidate)
        → gather lib artifact_of accept gathered items ≡ ok g
        → All P g.candidates
        → In item items
        → examine lib artifact_of accept item ≡ ok (accepted c)
        → P c
    unfolding gather
    gather-In gathered [] g item c h final i e = elim i [ ]
    gather-In gathered (first ∷ items) g item c h final here e =
        >>=-elim (examine lib artifact_of accept first) _ h λ added e₁ w.
          (All-right gathered.candidates (c ∷ []) (
            gather-start _ items g
              (subst (λ a. gather lib artifact_of accept (add a gathered) items ≡ ok g) {x = added}
                {y = accepted c} (cc) w)
              final)).0
    gather-In gathered (other ∷ items) g item c h final (there i) e =
        >>=-elim (examine lib artifact_of accept other) _ h
          λ added e₁ w. gather-In (add added gathered) items g item c w final i e
