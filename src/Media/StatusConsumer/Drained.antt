-- ===== src/Media/StatusConsumer/Drained.antt =====
-- Which entries of the video_status stream are acknowledged.
use s1t_python_backend_templ.Base.{
  ℕ, ◌≤◌, ◌≡◌, ◌⊎◌, String, Bool, true, List, [], ◌∷◌, ◌++◌, length, take, Option, none, some,
  Result, ok, err, Exec,
}
use s1t_python_backend_templ.Shared.Errors.{Error}
use s1t_python_backend_templ.Media.StatusConsumer.{Entry, StatusFacade, StatusStream}

-- XACK acknowledged the entry, or failed, and may have done so or not.
abbrev pub Xacked :
    {W : Type 0} → (W → List String) → String → W → Result Error (Unit {0}) × W → Type 0
Xacked acked id w (ok u, w') = acked w' ≡ acked w ++ id ∷ []
Xacked acked id w (err e, w') = (acked w' ≡ acked w) ⊎ (acked w' ≡ acked w ++ id ∷ [])

abbrev pub ids : List Entry → List String
ids [] = []
ids ((id, event) ∷ es) = id ∷ ids es

module _ {W : Type 0} (facade : StatusFacade W) (stream : StatusStream W)
    (acked : W → List String) where
  -- All entries were acknowledged, in order, and counted; or the first few were.
  abbrev pub AckedFirst : List Entry → W → Result Error ℕ × W → Type 0
  AckedFirst es w (ok n, w') = (n ≡ length es) × (acked w' ≡ acked w ++ ids es)
  AckedFirst es w (err e, w') =
      (k : ℕ) × ((k ≤ length es) × (acked w' ≡ acked w ++ take k (ids es)))

  module _ (xack_law : (id : String) (w : W) → Xacked acked id w (stream.xack id w))
      (acked-mark_processing : (i : ℕ) (w : W) → acked (facade.mark_processing i w).1 ≡ acked w)
      (acked-mark_done : (i : ℕ) (w : W) → acked (facade.mark_done i w).1 ≡ acked w)
      (acked-mark_failed : (i : ℕ) (w : W) → acked (facade.mark_failed i w).1 ≡ acked w) where
    -- A handled event is to be acknowledged, and handling acknowledges nothing itself.
    Handled : W → Result Error Bool × W → Type 0
    Handled w (ok d, w') = (d ≡ true) × (acked w' ≡ acked w)
    Handled w (err e, w') = acked w' ≡ acked w

    -- A call that acknowledges nothing.
    Keeps : Option (Exec Error W (Unit {0})) → Type 0
    Keeps none = Unit {0}
    Keeps (some call) = (w : W) → acked (call w).1 ≡ acked w
