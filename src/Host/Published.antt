-- ===== src/Host/Published.antt =====
-- The candidate names sealed objects only, so the bytes that a run publishes are fixed when it
-- publishes them.
use crawlbox.Common.{ℕ, ◌≡◌, ◌∙◌, refl, true, Option, some, List, Text, lookup}
use crawlbox.Wire.{Request, Descriptor}
use crawlbox.Host.State.{Host, Io, Previous, Node, is_taken, content, new_host}
use crawlbox.Host.Network.{Naming}
use crawlbox.Host.Calls.{run}
use crawlbox.Host.Moves.{Moves, here, next}
use crawlbox.Host.Steps.{run-Moves}
use crawlbox.Host.Frozen.{IsFrozen, Move-IsFrozen}
use crawlbox.Host.Changes.{Move-files_kept, Move-artifacts_kept}
use crawlbox.Host.Orderly.{IsOrderly, Move-IsOrderly}

Moves-IsOrderly : {h h' : Host} → Moves h h' → IsOrderly h → IsOrderly h'
Moves-IsOrderly here l = l
Moves-IsOrderly {h} (next ms mv) l = Move-IsOrderly _ _ mv (Moves-IsOrderly ms l)

Moves-IsFrozen :
    {h h' : Host} (v : Text)
    → Moves h h'
    → IsFrozen h v
    → IsFrozen h' v × (content h' v ≡ content h v)
Moves-IsFrozen v here f = (f, refl)
Moves-IsFrozen v (next ms mv) f =
    let (g, same) = Moves-IsFrozen v ms f in
    let (g', same') = Move-IsFrozen v mv g in (g', same' ∙ same)

Moves-files :
    {h h' : Host} (p v : Text)
    → Moves h h'
    → lookup p h.candidate.files ≡ some v
    → lookup p h'.candidate.files ≡ some v
Moves-files p v here e = e
Moves-files p v (next ms mv) e = Move-files_kept p v mv (Moves-files p v ms e)

Moves-artifacts :
    {h h' : Host} (p v : Text)
    → Moves h h'
    → lookup p h.candidate.artifacts ≡ some v
    → lookup p h'.candidate.artifacts ≡ some v
Moves-artifacts p v here e = e
Moves-artifacts p v (next ms mv) e = Move-artifacts_kept p v mv (Moves-artifacts p v ms e)

module _ (sha256 : Text → Text) (naming : Naming) (staging_bytes : ℕ) (hosts : List Text)
    (descriptor : Descriptor) (dir : Text) (prev : Previous) (tree : Text → Option Node)
    (calls : List (Io × Request)) where
  abbrev after : Host
  after = run sha256 naming calls (new_host staging_bytes hosts descriptor dir prev tree)

  -- The host of every run of a plugin is orderly: what its candidate names is there and cannot be
  -- written.
  pub run-IsOrderly :
      IsOrderly (run sha256 naming calls (new_host staging_bytes hosts descriptor dir prev tree))
  unfolding new_host lookup
  run-IsOrderly =
      Moves-IsOrderly
        (run-Moves sha256 naming calls (new_host staging_bytes hosts descriptor dir prev tree))
        (record {
          sealed_frozen = λ id o e s. cc;
          unsealed_alone = λ id o e s. cc;
          files_frozen = λ p v e. cc;
          artifacts_frozen = λ p v e. cc;
        })

  -- Whatever a plugin does after it has published a file, the candidate has the same object for
  -- it, and that object has the same bytes.
  pub published_file_fixed :
      (more : List (Io × Request)) (p v : Text)
      → let h = run sha256 naming calls (new_host staging_bytes hosts descriptor dir prev tree) in
        let g = run sha256 naming more h in
        lookup p h.candidate.files ≡ some v
        → (lookup p g.candidate.files ≡ some v)
          × (is_taken g v ≡ true)
          × (content g v ≡ content h v)
  published_file_fixed more p v e =
      let (frozen, same) =
        Moves-IsFrozen v (run-Moves sha256 naming more after) (run-IsOrderly.files_frozen p v e) in
      (Moves-files p v (run-Moves sha256 naming more after) e, frozen.there, same)

  -- The same of an artifact.
  pub published_artifact_fixed :
      (more : List (Io × Request)) (p v : Text)
      → let h = run sha256 naming calls (new_host staging_bytes hosts descriptor dir prev tree) in
        let g = run sha256 naming more h in
        lookup p h.candidate.artifacts ≡ some v
        → (lookup p g.candidate.artifacts ≡ some v)
          × (is_taken g v ≡ true)
          × (content g v ≡ content h v)
  published_artifact_fixed more p v e =
      let (frozen, same) =
        Moves-IsFrozen v (run-Moves sha256 naming more after)
          (run-IsOrderly.artifacts_frozen p v e) in
      (Moves-artifacts p v (run-Moves sha256 naming more after) e, frozen.there, same)
