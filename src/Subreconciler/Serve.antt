-- ===== src/Subreconciler/Serve.antt =====
-- One reconciler that serves requests one after the other, as the queue of the manager calls it.
use ceph_s3_operator.Prelude.{◌≡◌, refl, List, [], ◌∷◌, ap, ◌∙◌}
use ceph_s3_operator.Go.{Result}
use ceph_s3_operator.Names.{NamespacedName}
use ceph_s3_operator.Subreconciler.{CtrlResult}

-- A request, and what others have done to the world before it is taken from the queue.
pub record Call (W : Type 0) : Type 0 where
  pub others : W → W
  pub request : NamespacedName

-- A round of a reconciler on its state, the world in that, and a new reconciler in a world.
module _ {S W : Type 0} (round : NamespacedName → S → Result CtrlResult × S) (world : S → W)
    (enter : W → S → S) (fresh : W → S) where
  unfoldable pub serve : List (Call W) → S → List (Result CtrlResult) × W
  serve [] r = ([], world r)
  serve (call ∷ calls) r =
      let (result, r') = round call.request (enter (call.others (world r)) r) in
      let (results, w) = serve calls r' in (result ∷ results, w)

  -- The controller as a function on the world, without a state of its own.
  unfoldable pub respond : List (Call W) → W → List (Result CtrlResult) × W
  respond [] w = ([], w)
  respond (call ∷ calls) w =
      let (result, r') = round call.request (fresh (call.others w)) in
      let (results, w') = respond calls (world r') in (result ∷ results, w')

  -- Where a round agrees with that of a new reconciler, on the states that it keeps among `IsConfigured`.
  pub serve-respond_lem :
      (IsConfigured : S → Type 0)
      → ((w : W) (r : S) → IsConfigured r → IsConfigured (enter w r) × (world (enter w r) ≡ w))
      → ((req : NamespacedName) (r : S)
          → IsConfigured r
          → IsConfigured (round req r).1
            × ((round req r).0 ≡ (round req (fresh (world r))).0)
            × (world (round req r).1 ≡ world (round req (fresh (world r))).1))
      → (calls : List (Call W)) (r : S) → IsConfigured r
      → serve calls r ≡ respond calls (world r)
  unfolding serve respond
  serve-respond_lem IsConfigured enters rounds [] r set = refl
  serve-respond_lem IsConfigured enters rounds (call ∷ calls) r set =
      let w = call.others (world r) in
      let (set', at) = enters w r set in
      let (kept, same, there) = rounds call.request (enter w r) set' in
      let fresh_at = ap (λ v. round call.request (fresh v)) at in
      let results = same ∙ ap (λ (p : Result CtrlResult × S). p.0) fresh_at in
      let rest =
        serve-respond_lem IsConfigured enters rounds calls (round call.request (enter w r)).1 kept
        ∙ ap (respond calls) (there ∙ ap (λ (p : Result CtrlResult × S). world p.1) fresh_at) in
      λ i. (results i ∷ (rest i).0, (rest i).1)
