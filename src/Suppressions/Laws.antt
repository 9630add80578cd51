-- ===== src/Suppressions/Laws.antt =====
-- A suppressed address is found again, however it is written.
use hayasend.Base.{◌≡◌, refl, ap, ◌∙◌, ℕ, String, some, ok, ok_inj}
use hayasend.Base.Assoc.{get-put_same}
use hayasend.Platform.{Platform, iso_of}
use hayasend.Text.{Text}
use hayasend.Store.State.{and_then-eq-ok}
use hayasend.Catalog.Records.{SuppressionRecord}
use hayasend.Catalog.State.{CatalogStore}
use hayasend.Catalog.Items.{put_suppression, get_suppression}
use hayasend.Suppressions

module _ (p : Platform) (env : Suppressions.Environment) where
  stored_lem :
      (input : Suppressions.PutSuppressionInput) (email : Text) (at : String) (s : CatalogStore)
      {r : SuppressionRecord}
      → (Suppressions.put_normalized p env input email at s).0 ≡ ok r
      → get_suppression (env.sha256 email) (Suppressions.put_normalized p env input email at s).1
        ≡ some r
  unfolding Suppressions.put_normalized put_suppression get_suppression
      Suppressions.suppression_record
  stored_lem input email at s h = get-put_same _ _ _ s.suppressions refl ∙ ap some (ok_inj h)

  -- An address that was put is found, in the form in which it was put and in each other that means
  -- the same mailbox.
  pub get-put :
      (input : Suppressions.PutSuppressionInput) (address : Text) (now : ℕ) (s : CatalogStore)
      (r : SuppressionRecord)
      → Suppressions.normalize_mailbox p env address
        ≡ Suppressions.normalize_mailbox p env input.email
      → (Suppressions.put p env input now s).0 ≡ ok r
      → Suppressions.get p env address (Suppressions.put p env input now s).1 ≡ ok r
  unfolding Suppressions.put Suppressions.get
  get-put input address now s r same h =
      let (email, is, h1, after) =
        and_then-eq-ok (Suppressions.normalize_mailbox p env input.email, s) _ h in
      let (at, _, h2, after2) = and_then-eq-ok (iso_of p now, s) _ h1 in
      rw (same ∙ is, after ∙ after2, stored_lem input email at s h2) refl
