-- ===== src/Entities/Brightness.antt =====
-- custom_components/eisenberg/light.py: the brightness of the spotlight.
use ha_eisenberg.Common.{ℕ, ◌≤◌, ◌≡◌, arith}
use ha_eisenberg.Entities.{brightness_of, intensity_of}

-- An intensity that Arlo reports is sent back unchanged when the user sets the brightness that is shown, and
-- the brightness is in Home Assistant's range.
pub intensity_of-brightness_of :
    (intensity : ℕ)
    → intensity ≤ 100
    → (intensity_of (brightness_of intensity) ≡ intensity) × (brightness_of intensity ≤ 255)
unfolding intensity_of brightness_of
intensity_of-brightness_of intensity h = (ground arith, ground arith)
