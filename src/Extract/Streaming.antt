-- ===== src/Extract/Streaming.antt =====
-- `digest_and_size` of src/mailflow/extract/streaming.py. The chunks that `iter_decoded` yields, and the
-- exception that ends it, if any, are arguments; a hasher is what it was fed, and SHA-256 a parameter.
use mailflow.Base.{
  ℕ, zero, suc, ◌+◌, ◌≤◌, ◌<◌, leb, Text, text, show_nat, Option, none, some, List, [], ◌∷◌, ◌++◌,
  length, length-append, ◌≡◌, refl, sym, subst, arith, Bool-cases, inl, inr, if◌then◌else◌,
}
use mathlib.Core.List.{append_assoc, append-nil}
use mailflow.Exec.{Exc, permanent, Result, ok, err}
use mailflow.Core.Models.{Bytes}
use mailflow.Stores.MemoryBlobs.{join}

unfoldable pub too_large : ℕ → ℕ → Exc
too_large cap seen = record {
  kind = permanent;
  class_name = text "AttachmentTooLargeError";
  message =
      text "attachment exceeds the "
      ++ (show_nat cap ++ (text "-byte cap (saw " ++ (show_nat seen ++ text " bytes)")));
}

abbrev ended : {A : Type 0} → Option Exc → A → Result A
ended none a = ok a
ended (some e) a = err e

-- The loop over the chunks, with the bytes fed to the hasher and their number so far.
unfoldable pub digest_from : ℕ → List Bytes → Option Exc → Bytes → ℕ → Result (Bytes × ℕ)
digest_from cap [] end_ fed total = ended end_ (fed, total)
digest_from cap (chunk ∷ chunks) end_ fed total =
    let rest = digest_from cap chunks end_ (fed ++ chunk) (total + length chunk) in
    if leb (total + length chunk) cap then rest else err (too_large cap (total + length chunk))

module _ (sha256_hex : Bytes → Text) where
  -- (hasher.hexdigest(), total) if total else ("", 0)
  abbrev pub summary : Bytes → ℕ → Text × ℕ
  summary fed zero = ([], 0)
  summary fed (suc n) = (sha256_hex fed, suc n)

  abbrev pub summarized : Result (Bytes × ℕ) → Result (Text × ℕ)
  summarized (ok (fed, total)) = ok (summary fed total)
  summarized (err e) = err e

  unfoldable pub digest_and_size : ℕ → List Bytes → Option Exc → Result (Text × ℕ)
  unfolding digest_from
  digest_and_size cap chunks end_ = summarized (digest_from cap chunks end_ [] 0)

-- Refused at the first number of bytes over the cap, which is at most the size of the whole.
abbrev Refused : ℕ → ℕ → Exc → Type 0
Refused cap size e = (seen : ℕ) × (e ≡ too_large cap seen) × (cap < seen) × (seen ≤ size)

-- The whole is digested if it fits, and refused if not.
abbrev Fed : ℕ → Bytes → Result (Bytes × ℕ) → Type 0
Fed cap whole (ok (fed, total)) = (length whole ≤ cap) × (fed ≡ whole) × (total ≡ length whole)
Fed cap whole (err e) = Refused cap (length whole) e

digest_from-Fed :
    (cap : ℕ) (chunks : List Bytes) (fed : Bytes)
    → length fed ≤ cap
    → Fed cap (fed ++ join chunks) (digest_from cap chunks none fed (length fed))
unfolding digest_from join
digest_from-Fed cap [] fed h =
    subst (λ (whole : Bytes). Fed cap whole (ok (fed, length fed))) (sym (append-nil fed))
      (h, refl, refl)
digest_from-Fed cap (chunk ∷ chunks) fed h =
    elim (Bool-cases (leb (length fed + length chunk) cap)) [
      | inl fits ↦ rw fits (
          subst
            (λ (whole : Bytes).
              Fed cap whole
                (digest_from cap chunks none (fed ++ chunk) (length fed + length chunk)))
            (append_assoc fed chunk (join chunks))
            (subst
              (λ n.
                Fed cap ((fed ++ chunk) ++ join chunks)
                  (digest_from cap chunks none (fed ++ chunk) n))
              (length-append fed chunk)
              (digest_from-Fed cap chunks (fed ++ chunk)
                (ground (arith, length-append fed chunk)))))
      | inr over ↦ rw over (
        length fed + length chunk,
        refl,
        ground arith,
        ground (arith, length-append fed (chunk ++ join chunks), length-append chunk (join chunks)),
      )
    ]

-- What a digest of some chunks is: that of the whole, if it fits.
abbrev pub Digested : (Bytes → Text) → ℕ → Bytes → Result (Text × ℕ) → Type 0
Digested sha256_hex cap whole (ok r) =
    (length whole ≤ cap) × (r ≡ summary sha256_hex whole (length whole))
Digested sha256_hex cap whole (err e) =
    (seen : ℕ) × (e ≡ too_large cap seen) × (cap < seen) × (seen ≤ length whole)

-- However an attachment is cut into chunks, if all of them can be read: it is digested only where the
-- whole fits the cap, and then the digest and the size are those of the whole ("" and 0 for an empty
-- one); it is refused only with a number of bytes seen that is over the cap and at most its size.
pub digest_and_size-Digested :
    (sha256_hex : Bytes → Text) (cap : ℕ) (chunks : List Bytes)
    → Digested sha256_hex cap (join chunks) (digest_and_size sha256_hex cap chunks none)
unfolding digest_and_size
digest_and_size-Digested sha256_hex cap chunks =
    go (digest_from cap chunks none [] 0) (digest_from-Fed cap chunks [] (omega arith))
  where
    go :
        (p : Result (Bytes × ℕ))
        → Fed cap (join chunks) p
        → Digested sha256_hex cap (join chunks) (summarized sha256_hex p)
    go (ok (fed, total)) h = (h.0, rw (h.1, h.2) refl)
    go (err e) h = h
