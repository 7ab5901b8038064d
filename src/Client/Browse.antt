-- ===== src/Client/Browse.antt =====
-- BrowseNext reads every page that the server has, and ends.
use open62541_nodeset_export.Prelude.{
  Bool-cases, List, Option, Text, [], append-nil, append_assoc, arith, false, inl, inr, none, refl,
  some, suc, sym, zero, ℕ, ◌++◌, ◌<◌, ◌∙◌, ◌∷◌, ◌≡◌, ◌≢◌, ◌⊎◌,
}
use open62541_nodeset_export.Client.{BrowseResult, UaClient, browse_next}
use open62541_nodeset_export.Status.{Outcome, Status, fails, of_status, ok, runtime_error, throws}
use open62541_nodeset_export.Ua.{ReferenceDescription, Ua}

Results-cases :
    (o : Option (List BrowseResult))
    → (o ≡ none)
      ⊎ (o ≡ some [])
      ⊎ ((page : BrowseResult) × (o ≡ some (page ∷ [])))
      ⊎ ((page page2 : BrowseResult) × (pages : List BrowseResult) × (o
            ≡ some (page ∷ page2 ∷ pages)))
Results-cases none = inl refl
Results-cases (some []) = inr (inl refl)
Results-cases (some (page ∷ [])) = inr (inr (inl (page, refl)))
Results-cases (some (page ∷ page2 ∷ pages)) = inr (inr (inr (page, page2, pages, refl)))

module _ {W : Type 0} (ua : Ua) (client : UaClient W) where
  -- The pages that the server hands out from a continuation point on, up to the one with no further point.
  abbrev pub Pages : Text → List BrowseResult → W → W → Type 0
  Pages cp [] w w' = (cp ≡ []) × (w ≡ w')
  Pages cp (page ∷ pages) w w' =
      (cp ≢ [])
      × (ua.is_bad (client.service_browse_next cp w).0.service_result ≡ false)
      × ((client.service_browse_next cp w).0.results ≡ some (page ∷ []))
      × Pages page.continuation_point pages (client.service_browse_next cp w).1 w'

  abbrev pub page_references : List BrowseResult → List ReferenceDescription
  page_references [] = []
  page_references (page ∷ pages) = page.references ++ page_references pages

  -- How a call of BrowseNext ends.
  abbrev pub IsRead :
      Text → List ReferenceDescription → W → Outcome (List ReferenceDescription) × W → Type 0
  IsRead cp refs w (ok refs', w') =
      (pages : List BrowseResult) × Pages cp pages w w' × (refs' ≡ refs ++ page_references pages)
  IsRead cp refs w (fails r, w') = r ≡ of_status Status.fail
  IsRead cp refs w (throws x, w') = x ≡ runtime_error

  -- A server whose pages come to an end: `remaining` of the state of the connection gets smaller with every
  -- page that another one follows.
  abbrev pub IsFinite : (W → ℕ) → Type 0
  IsFinite remaining =
      (cp : Text) (w : W) (page : BrowseResult)
      → (client.service_browse_next cp w).0.results ≡ some (page ∷ [])
      → page.continuation_point ≢ []
      → remaining (client.service_browse_next cp w).1 < remaining w

  add_page :
      (cp : Text) (refs : List ReferenceDescription) (w : W) (page : BrowseResult)
      (r : Outcome (List ReferenceDescription) × W)
      → cp ≢ []
      → ua.is_bad (client.service_browse_next cp w).0.service_result ≡ false
      → (client.service_browse_next cp w).0.results ≡ some (page ∷ [])
      → IsRead page.continuation_point
          (refs ++ page.references)
          (client.service_browse_next cp w).1
          r
      → IsRead cp refs w r
  add_page cp refs w page (ok refs', w') more fine one (pages, rest, same) = (
    page ∷ pages,
    (more, fine, one, rest),
    same ∙ append_assoc refs page.references (page_references pages),
  )
  add_page cp refs w page (fails r, w') more fine one h = h
  add_page cp refs w page (throws x, w') more fine one h = h

  last_page :
      (fuel : ℕ) (cp : Text) (refs : List ReferenceDescription) (w : W)
      → (cp ≢ [] → IsRead cp refs w (browse_next ua client fuel cp refs w))
      → IsRead cp refs w (browse_next ua client fuel cp refs w)
  unfolding browse_next
  last_page zero [] refs w h = ([], (refl, refl), sym (append-nil refs))
  last_page (suc fuel) [] refs w h = ([], (refl, refl), sym (append-nil refs))
  last_page fuel (c ∷ cs) refs w h = h (λ e. cc)

  -- With one round for each page that may still come, BrowseNext ends. When it succeeds it has followed the
  -- continuation points to the last page, and has added the references of every page, in order, to those
  -- that were there; otherwise it returns Fail or throws runtime_error.
  pub browse_next-IsRead :
      (remaining : W → ℕ)
      → IsFinite remaining
      → (fuel : ℕ) (cp : Text) (refs : List ReferenceDescription) (w : W) → remaining w < fuel
      → IsRead cp refs w (browse_next ua client fuel cp refs w)
  unfolding browse_next
  browse_next-IsRead remaining finite zero cp refs w h = elim h [ ]
  browse_next-IsRead remaining finite (suc fuel) [] refs w h =
      ([], (refl, refl), sym (append-nil refs))
  browse_next-IsRead remaining finite (suc fuel) (c ∷ cs) refs w h =
      let w1 = (client.service_browse_next (c ∷ cs) w).1 in
      elim (Bool-cases (ua.is_bad (client.service_browse_next (c ∷ cs) w).0.service_result)) [
        | inl e ↦ rw (e, browse_next) refl
        | inr e ↦ elim (Results-cases (client.service_browse_next (c ∷ cs) w).0.results) [
          | inl r ↦ rw (e, r, browse_next) refl
          | inr (inl r) ↦ rw (e, r, browse_next) refl
          | inr (inr (inl (page, r))) ↦
              rw (e, r, browse_next)
                (add_page (c ∷ cs) refs w page _ (λ q. cc) e r
                  (last_page fuel page.continuation_point (refs ++ page.references) w1 (λ more.
                    browse_next-IsRead remaining finite fuel page.continuation_point
                      (refs ++ page.references) w1
                      (let less = finite (c ∷ cs) w page r more in omega arith))))
          | inr (inr (inr (page, page2, pages, r))) ↦ rw (e, r, browse_next) refl
        ]
      ]
