-- ===== src/Commands/Run/Identity.antt =====
-- Who signs, and for which maker.
use mathlib.Core.Path.{subst}
use archer_market_maker.Base.{
  ◌≡◌, refl, sym, ap, ◌∙◌, ◌⊎◌, inl, inr, Option, none, some, Bool, true, false, is_empty,
  if◌then◌else◌,
}
use archer_market_maker.Base.Text.{Text}
use archer_market_maker.Base.Results.{ok, ◌>>=◌, bind_ok, context_ok, ok_injective, err_not_ok}
use archer_market_maker.Float.{F64}
use archer_market_maker.Config.{MarketSettings}
use archer_market_maker.Commands.Chain.{World, pubkey_error, no_maker, no_signer}
use archer_market_maker.Commands.{load_keypair}
use archer_market_maker.Commands.Run.{owner_keypair, owner_pubkey, signer_of, resolve_run_identity}

module _ {Pubkey Keypair Instruction Hash Transaction Error Signature F S : Type 0} ⦃fl : F64 F⦄
    (world : World Pubkey Keypair Instruction Hash Transaction Error Signature F S)
    (m : MarketSettings Text) where
  open world use {pubkey, parse_pubkey}

  -- Whose book is quoted: the key's in the file of the maker, or the one named.
  unfoldable pub IsOwner : Pubkey → Type 0
  IsOwner owner =
      ((keypair : Keypair) × (is_empty m.maker_keypair_path ≡ false)
        × (load_keypair world m.maker_keypair_path ≡ ok keypair)
        × (owner ≡ pubkey keypair))
      ⊎ ((is_empty m.maker_keypair_path ≡ true)
          × (is_empty m.maker_owner_pubkey ≡ false)
          × (parse_pubkey m.maker_owner_pubkey ≡ some owner))

  -- Who signs: the delegate, if a path to its key is set, or else the maker.
  unfoldable pub IsSigner : Keypair → Type 0
  IsSigner signer =
      ((is_empty m.delegate_keypair_path ≡ false)
        × (load_keypair world m.delegate_keypair_path ≡ ok signer))
      ⊎ ((is_empty m.delegate_keypair_path ≡ true)
          × (is_empty m.maker_keypair_path ≡ false)
          × (load_keypair world m.maker_keypair_path ≡ ok signer))

  -- What the key of the maker is known to be.
  IsMaker : Option Keypair → Type 0
  IsMaker none = is_empty m.maker_keypair_path ≡ true
  IsMaker (some keypair) =
      (is_empty m.maker_keypair_path ≡ false)
      × (load_keypair world m.maker_keypair_path ≡ ok keypair)

  IsMaker-from :
      (blank : Bool) (keypair : Option Keypair)
      → is_empty m.maker_keypair_path ≡ blank
      → (if blank then ok none else (load_keypair world m.maker_keypair_path >>= λ k. ok (some k)))
        ≡ ok keypair
      → IsMaker keypair
  unfolding IsMaker
  IsMaker-from true keypair path e = subst IsMaker (ok_injective none keypair e) path
  IsMaker-from false keypair path e =
      let (k, loaded, same) =
        bind_ok (load_keypair world m.maker_keypair_path) (λ k. ok (some k)) keypair e in
      subst IsMaker (ok_injective (some k) keypair same) (path, loaded)

  IsOwner-from :
      (keypair : Option Keypair) (blank : Bool) (owner : Pubkey)
      → is_empty m.maker_owner_pubkey ≡ blank
      → IsMaker keypair
      → owner_pubkey world m keypair ≡ ok owner
      → IsOwner owner
  unfolding IsMaker IsOwner owner_pubkey
  IsOwner-from (some k) blank owner named (path, loaded) e =
      inl (k, path, loaded, sym (ok_injective (pubkey k) owner e))
  IsOwner-from none true owner named path e = absurd (err_not_ok no_maker owner (rw named at e))
  IsOwner-from none false owner named path e = inr (
    path,
    named,
    context_ok pubkey_error (parse_pubkey m.maker_owner_pubkey) owner (rw named at e),
  )

  IsSigner-from :
      (keypair : Option Keypair) (blank : Bool) (signer : Keypair)
      → is_empty m.delegate_keypair_path ≡ blank
      → IsMaker keypair
      → signer_of world m keypair ≡ ok signer
      → IsSigner signer
  unfolding IsMaker IsSigner signer_of
  IsSigner-from keypair false signer own maker e = inl (own, rw own at e)
  IsSigner-from none true signer own maker e = absurd (err_not_ok no_signer signer (rw own at e))
  IsSigner-from (some k) true signer own (path, loaded) e = inr (own, path, loaded ∙ (rw own at e))

  -- When `resolve_run_identity` succeeds, it returns the signer and the owner of the book. The owner
  -- is the key in the maker's key file, if a path to one is set, and otherwise the key that is named
  -- in the settings; the signer is the delegate's key, if a path to one is set, and otherwise the
  -- maker's.
  pub resolve_run_identity-IsOwner :
      (signer : Keypair) (owner : Pubkey)
      → resolve_run_identity world m ≡ ok (signer, owner)
      → IsSigner signer × IsOwner owner
  unfolding resolve_run_identity owner_keypair
  resolve_run_identity-IsOwner signer owner e =
      let (keypair, e₁, f₁) = bind_ok (owner_keypair world m) _ (signer, owner) e in
      let (o, e₂, f₂) = bind_ok (owner_pubkey world m keypair) _ (signer, owner) f₁ in
      let (s, e₃, f₃) = bind_ok (signer_of world m keypair) _ (signer, owner) f₂ in
      let same = ok_injective (s, o) (signer, owner) f₃ in
      let maker = IsMaker-from (is_empty m.maker_keypair_path) keypair refl e₁ in
      (
        IsSigner-from keypair (is_empty m.delegate_keypair_path) signer refl maker
            (e₃ ∙ ap (λ p. ok p.0) same),
        IsOwner-from keypair (is_empty m.maker_owner_pubkey) owner refl maker
            (e₂ ∙ ap (λ p. ok p.1) same),
      )
