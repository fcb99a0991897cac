-- ===== src/Tests/Bits.antt =====
-- Instances for the bitmap and for the words of the page tables.
use mates_os.Base.{ℕ, ◌<◌, ◌≡◌, refl, arith, ◌==◌, false, if◌then◌else◌, true}
use mates_os.Bitmap.{Bitmap}
use mates_os.Bitmap.Laws.{get-set, set_past_end}
use mates_os.Bits.{bit}
use mates_os.Bitmap

abbrev mixed : Bitmap
mixed = record { size = 2; buffer = λ i. if i == 0 then 0b10100000 else 0b01111111 }

bits_run :
    (Bitmap.get mixed 2 ≡ true)
    × (Bitmap.get mixed 3 ≡ false)
    × (Bitmap.get (Bitmap.set mixed 9 false).0 9 ≡ false)
unfolding Bitmap.get Bitmap.set
bits_run = (refl, refl, refl)

get-set_example : Bitmap.get (Bitmap.set mixed 3 true).0 3 ≡ true
get-set_example = get-set mixed 3 3 true

set_past_end_example :
    let (b', done) = Bitmap.set mixed 16 true in
    (done ≡ true) × ((i : ℕ) → i < 2 → b'.buffer i ≡ mixed.buffer i) × (bit (b'.buffer 2) 7 ≡ 1)
set_past_end_example = set_past_end mixed true (omega arith)
