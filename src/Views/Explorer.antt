-- ===== src/Views/Explorer.antt =====
-- src/components/views/ExplorerView.tsx: what a search shows. `String.prototype.toLowerCase` is an
-- argument.
pub mod Blanks
use resistance_network.Common.{
  ℕ, Bool, true, false, ◌&&◌, ◌||◌, List, [], ◌∷◌, Text, codes, starts_with, trim, keep,
  if◌then◌else◌,
}
use resistance_network.Common.Int.{pos}
use resistance_network.TxHelpers.BigInt.{print_bigint}
use resistance_network.Api.Data.{Block, Transaction, Validator}
use resistance_network.Views.Number.{is_empty}

-- `s.includes(q)`
unfoldable pub includes : Text → Text → Bool
includes q [] = is_empty q
includes q (c ∷ s) = starts_with q (c ∷ s) || includes q s

-- Whether some text of a list includes the query.
unfoldable pub some_includes : Text → List Text → Bool
some_includes q [] = false
some_includes q (s ∷ ss) = includes q s || some_includes q ss

module _ (lower : Text → Text) where
  -- What the search looks at.
  abbrev pub block_texts : Block → List Text
  block_texts b =
      print_bigint (pos b.height) ∷ lower (codes b.hash) ∷ lower (codes b.validator) ∷ []

  abbrev pub transaction_texts : Transaction → List Text
  transaction_texts t =
      lower (codes t.hash)
      ∷ lower (codes t.sender)
      ∷ lower (codes t.recipient)
      ∷ lower (codes t.kind)
      ∷ []

  abbrev pub validator_texts : Validator → List Text
  validator_texts v = lower (codes v.address) ∷ lower (codes v.stake) ∷ []

  unfoldable pub filtered {ℓ} : {A : Type ℓ} → (A → List Text) → Text → List A → List A
  filtered texts query xs =
      if is_empty (trim query) then xs else keep (λ x. some_includes (lower query) (texts x)) xs

  unfoldable pub filtered_blocks : Text → List Block → List Block
  filtered_blocks query blocks = filtered block_texts query blocks

  unfoldable pub filtered_txs : Text → List Transaction → List Transaction
  filtered_txs query txs = filtered transaction_texts query txs

  unfoldable pub filtered_validators : Text → List Validator → List Validator
  filtered_validators query validators = filtered validator_texts query validators
