-- ===== src/Models/Deployments/Bounds.antt =====
-- The bounds on what a deployment row stores (internal/models/store.go).
use winify.Common.{
  ℕ, ◌-◌, ◌≤◌, ◌≡◌, [], ◌++◌, arith, leb, if◌then◌else◌, length, take, length-drop,
  take-append-drop, Text,
}
use winify.Models.Deployments.{cap_stored_text}

-- What is stored has at most `limit` bytes, and is the end of the given text: only a front part
-- is cut away, and nothing is if the text fits.
pub cap_stored_text_tail :
    (value : Text) (limit : ℕ)
    → (length (cap_stored_text value limit) ≤ limit)
      × ((cut : Text) × (cut ++ cap_stored_text value limit ≡ value))
      × (length value ≤ limit → cap_stored_text value limit ≡ value)
unfolding cap_stored_text
cap_stored_text_tail value limit = (
  ground (arith, length-drop (length value - limit) value),
  (
    if leb (length value) limit then [] else take (length value - limit) value,
    ground (arith, take-append-drop (length value - limit) value),
  ),
  ground arith,
)
