-- ===== src/Client/References.antt =====
-- What ReadNodeReferences hands back.
use open62541_nodeset_export.Prelude.{
  Bool-cases, List, Text, [], ap, arith, false, inl, inr, length, refl, subst, ℕ, ◌++◌, ◌<◌, ◌∷◌,
  ◌≡◌, ◌≤◌, ◌⊎◌,
}
use open62541_nodeset_export.Client.{BrowseResult, UaClient, add_results, is_touched}
use open62541_nodeset_export.Client.Browse.{
  IsFinite, IsRead, Pages, browse_next-IsRead, page_references,
}
use open62541_nodeset_export.Effect.{and_then}
use open62541_nodeset_export.Interfaces.{NodeReferencesRequestResponse}
use open62541_nodeset_export.Status.{
  Outcome, Status, fails, of_status, ok, out_of_range, runtime_error, throws,
}
use open62541_nodeset_export.Ua.{ReferenceDescription, Ua}

module _ {W : Type 0} (ua : Ua) (client : UaClient W) where
  -- Each node gets the references of its result and of the pages that follow it, after those it had; a
  -- result beyond the nodes says nothing.
  abbrev pub AllRead :
      List NodeReferencesRequestResponse
      → List BrowseResult
      → List NodeReferencesRequestResponse
      → W
      → W
      → Type 0
  AllRead nodes [] nodes' w w' = (nodes' ≡ nodes) × (w ≡ w')
  AllRead [] (r ∷ rs) nodes' w w' = (is_touched ua client r ≡ false) × AllRead [] rs nodes' w w'
  AllRead (node ∷ nodes) (r ∷ rs) nodes' w w' =
      (pages : List BrowseResult) × (rest : List NodeReferencesRequestResponse) × (w1 : W) × Pages
        ua client r.continuation_point pages w w1
      × (nodes'
          ≡ record node {
            references = (node.references ++ r.references) ++ page_references ua client pages;
          }
            ∷ rest)
      × AllRead nodes rs rest w1 w'

  abbrev pub IsAdded :
      List NodeReferencesRequestResponse
      → List BrowseResult
      → W
      → Outcome (List NodeReferencesRequestResponse) × W
      → Type 0
  IsAdded nodes rs w (ok nodes', w') = AllRead nodes rs nodes' w w'
  IsAdded nodes rs w (fails s, w') = s ≡ of_status Status.fail
  IsAdded nodes rs w (throws x, w') =
      (x ≡ runtime_error) ⊎ ((x ≡ out_of_range) × (length nodes < length rs))

  -- No call of BrowseNext adds to the pages that remain.
  abbrev pub IsSinking : (W → ℕ) → Type 0
  IsSinking remaining =
      (cp : Text) (w : W) → remaining (client.service_browse_next cp w).1 ≤ remaining w

  Pages-le :
      (remaining : W → ℕ)
      → IsSinking remaining
      → (cp : Text) (pages : List BrowseResult) (w w' : W) → Pages ua client cp pages w w'
      → remaining w' ≤ remaining w
  Pages-le remaining sinking cp [] w w' (none_left, same) =
      subst (λ v. remaining v ≤ remaining w) same (omega arith)
  Pages-le remaining sinking cp (page ∷ pages) w w' (more, fine, one, rest) =
      let first = sinking cp w in
      let later =
        Pages-le remaining sinking page.continuation_point pages (client.service_browse_next cp w).1
          w' rest in
      omega (arith, first, later)

  later_nodes :
      (node : NodeReferencesRequestResponse) (nodes : List NodeReferencesRequestResponse)
      (r : BrowseResult) (rs : List BrowseResult) (refs : List ReferenceDescription) (w w1 : W)
      → IsRead ua client r.continuation_point (node.references ++ r.references) w (ok refs, w1)
      → (o : Outcome (List NodeReferencesRequestResponse) × W) → IsAdded nodes rs w1 o
      → IsAdded
          (node ∷ nodes)
          (r ∷ rs)
          w
          (and_then o λ nodes' w2. (ok (record node { references = refs } ∷ nodes'), w2))
  later_nodes node nodes r rs refs w w1 (pages, read, same) (ok nodes', w2) h =
      (pages, nodes', w1, read, ap (λ k. record node { references = k } ∷ nodes') same, h)
  later_nodes node nodes r rs refs w w1 read (fails s, w2) h = h
  later_nodes node nodes r rs refs w w1 read (throws x, w2) (inl e) = inl e
  later_nodes node nodes r rs refs w w1 read (throws x, w2) (inr (e, less)) =
      inr (e, omega (arith, less))

  first_node :
      (remaining : W → ℕ)
      → IsSinking remaining
      → (fuel : ℕ) (node : NodeReferencesRequestResponse)
        (nodes : List NodeReferencesRequestResponse) (r : BrowseResult) (rs : List BrowseResult)
        (w : W)
      → remaining w < fuel
      → ((w1 : W)
          → remaining w1 < fuel
          → IsAdded nodes rs w1 (add_results ua client fuel nodes rs w1))
      → (o : Outcome (List ReferenceDescription) × W)
      → IsRead ua client r.continuation_point (node.references ++ r.references) w o
      → IsAdded (node ∷ nodes) (r ∷ rs) w (
          and_then o λ refs w1.
            and_then
              (add_results ua client fuel nodes rs w1)
              λ nodes' w2. (ok (record node { references = refs } ∷ nodes'), w2))
  first_node remaining sinking fuel node nodes r rs w enough ih (ok refs, w1) (pages, read, same) =
      let le = Pages-le remaining sinking r.continuation_point pages w w1 read in
      later_nodes node nodes r rs refs w w1 (pages, read, same)
        (add_results ua client fuel nodes rs w1) (ih w1 (omega (arith, le, enough)))
  first_node remaining sinking fuel node nodes r rs w enough ih (fails s, w1) e = e
  first_node remaining sinking fuel node nodes r rs w enough ih (throws x, w1) e = inl e

  no_node :
      (r : BrowseResult) (rs : List BrowseResult) (w : W)
      (o : Outcome (List NodeReferencesRequestResponse) × W)
      → is_touched ua client r ≡ false
      → IsAdded [] rs w o
      → IsAdded [] (r ∷ rs) w o
  no_node r rs w (ok nodes', w') e h = (e, h)
  no_node r rs w (fails s, w') e h = h
  no_node r rs w (throws x, w') e (inl h) = inl h
  no_node r rs w (throws x, w') e (inr (h, less)) = inr (h, omega arith)

  -- With one round of BrowseNext for each page that may still come, the loop of ReadNodeReferences over
  -- the results of a browse ends. When it succeeds, each node has got the references of the result at
  -- its position and then those of every page that follows this result, after the references it had, and
  -- a result beyond the nodes had nothing to say. Otherwise it returns Fail, throws runtime_error, or
  -- throws out_of_range, which happens only when the results are more than the nodes.
  pub add_results-IsAdded :
      (remaining : W → ℕ)
      → IsFinite ua client remaining
      → IsSinking remaining
      → (fuel : ℕ) (nodes : List NodeReferencesRequestResponse) (rs : List BrowseResult) (w : W)
      → remaining w < fuel
      → IsAdded nodes rs w (add_results ua client fuel nodes rs w)
  unfolding add_results
  add_results-IsAdded remaining finite sinking fuel [] [] w enough = (refl, refl)
  add_results-IsAdded remaining finite sinking fuel (node ∷ nodes) [] w enough = (refl, refl)
  add_results-IsAdded remaining finite sinking fuel [] (r ∷ rs) w enough =
      elim (Bool-cases (is_touched ua client r)) [
        | inl e ↦ rw (e) (inr (refl, omega arith))
        | inr e ↦
            rw (e) (
              no_node r rs w _ e (add_results-IsAdded remaining finite sinking fuel [] rs w enough))
      ]
  add_results-IsAdded remaining finite sinking fuel (node ∷ nodes) (r ∷ rs) w enough =
      first_node remaining sinking fuel node nodes r rs w enough
        (add_results-IsAdded remaining finite sinking fuel nodes rs) _
        (browse_next-IsRead ua client remaining finite fuel r.continuation_point
          (node.references ++ r.references) w enough)
