-- ===== src/Ca/RoundTrip.antt =====
-- `GenerateCA` and `ParseCA` of operator/internal/controller/ca.go, one after the other, as
-- `ensureCA` and `getCA` use them on a Secret's two texts.
use ninekube.Prelude.{String, ◌≡◌, ◌∙◌, ap}
use ninekube.Exec.{ok}
use ninekube.World.{World}
use ninekube.World.Lawful.{Lawful}
use ninekube.World.Healthy.{Healthy}
use ninekube.Ca.{Ca, generate_ca, parse_ca}
use ninekube.Progress.Room.{IsObjectwise}
use ninekube.Progress.Crypto.{IsWritten, generate_ca-IsWritten, parse_ca-Succeeds}

always-IsObjectwise : {W : World} (L : Lawful W) → IsObjectwise L (λ s. Unit)
always-IsObjectwise L s t same held = tt

module _ {W : World} {L : Lawful W} (H : Healthy L) where
  written-read :
      (ca : Ca W) (t : W.State) → IsWritten W ca → (parse_ca W ca.cert_pem ca.key_pem t).0 ≡ ok ca
  written-read ca t ((c, held, read), has_key) =
      let (found, done, same, _) =
        (parse_ca-Succeeds H (always-IsObjectwise L) ca.cert_pem ca.key_pem c ca.key read
            has_key).at
          t tt in
      done ∙ ap ok (same ∙ rw held)

  -- On a good day `GenerateCA` makes a CA, and `ParseCA`, run at any later time on the two texts that
  -- are stored of it, gives that same CA back: its certificate, its key and its texts.
  pub parse_ca-generate_ca :
      (common_name : String) (s : W.State)
      → (ca : Ca W) × ((generate_ca W common_name s).0 ≡ ok ca)
        × ((t : W.State) → (parse_ca W ca.cert_pem ca.key_pem t).0 ≡ ok ca)
  parse_ca-generate_ca common_name s =
      let (ca, made, written, _) =
        (generate_ca-IsWritten H (always-IsObjectwise L) common_name).at s tt in
      (ca, made, λ t. written-read ca t written)
