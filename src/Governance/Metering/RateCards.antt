-- ===== src/Governance/Metering/RateCards.antt =====
-- The rate cards of `InMemoryMeteringLedger`. A `datetime` is a number, `metadata` has text values,
-- and what is mutated is written back.
pub mod Listing
use multi_agent_langgraph.Base.{
  ℕ, ◌+◌, String, Bool, true, false, ◌&&◌, Option, none, some, List, [], ◌∷◌, leb, ◌==◌, string_key,
  if◌then◌else◌, select,
}
use multi_agent_langgraph.Base.Dict.{Dict, lookup, insert, erase, has_key, get_or, values}

pub record RateCard : Type 0 where
  pub rate_card_id : String
  pub provider : String
  pub model : String
  pub unit : String
  pub rate_usd : ℕ
  pub effective_from : ℕ
  pub effective_to : Option ℕ
  pub version : ℕ
  pub status : String
  pub created_by : String
  pub activated_by : Option String
  pub activated_at : Option ℕ
  pub metadata : Dict String String
  pub created_at : Option ℕ
  pub updated_at : Option ℕ

pub record RateCardCreate : Type 0 where
  pub provider : String
  pub model : String
  pub unit : String
  pub rate_usd : ℕ
  pub effective_from : ℕ
  pub effective_to : Option ℕ
  pub created_by : String
  pub metadata : Dict String String

pub record RateCardUpdate : Type 0 where
  pub rate_usd : Option ℕ
  pub effective_to : Option ℕ
  pub metadata : Option (Dict String String)

abbrev pub RateCards : Type 0
RateCards = Dict String RateCard

unfoldable pub get_rate_card : String → RateCards → Option RateCard
get_rate_card rate_card_id cards = lookup rate_card_id cards

-- `uuid` is what `uuid4` returns; the pop takes the name out of the metadata.
abbrev pub new_card : String → RateCardCreate → RateCard
new_card uuid data_ = record {
  rate_card_id = get_or "rate_card_id" data_.metadata uuid;
  provider = data_.provider;
  model = data_.model;
  unit = data_.unit;
  rate_usd = data_.rate_usd;
  effective_from = data_.effective_from;
  effective_to = data_.effective_to;
  version = 1;
  status = "draft";
  created_by = data_.created_by;
  activated_by = none;
  activated_at = none;
  metadata = erase "rate_card_id" data_.metadata;
  created_at = none;
  updated_at = none;
}

unfoldable pub create_rate_card : String → RateCardCreate → RateCards → RateCard × RateCards
create_rate_card uuid data_ cards =
    let card = new_card uuid data_ in (card, insert card.rate_card_id card cards)

abbrev given {ℓ} : {A : Type ℓ} → Option A → A → A
given none old = old
given (some new) old = new

abbrev given_time : Option ℕ → Option ℕ → Option ℕ
given_time none old = old
given_time (some new) old = some new

abbrev pub updated : RateCardUpdate → RateCard → RateCard
updated data_ card = record card {
  rate_usd = given data_.rate_usd card.rate_usd;
  effective_to = given_time data_.effective_to card.effective_to;
  metadata = given data_.metadata card.metadata;
}

-- A method that finds a card, changes it and returns it.
abbrev modify :
    (RateCard → RateCard) → Option RateCard → String → RateCards → Option RateCard × RateCards
modify f none rate_card_id cards = (none, cards)
modify f (some card) rate_card_id cards = (some (f card), insert rate_card_id (f card) cards)

unfoldable pub update_rate_card : String → RateCardUpdate → RateCards → Option RateCard × RateCards
update_rate_card rate_card_id data_ cards =
    modify (updated data_) (lookup rate_card_id cards) rate_card_id cards

abbrev pub activated : String → ℕ → RateCard → RateCard
activated activated_by now card = record card {
  status = "active";
  activated_by = some activated_by;
  activated_at = some now;
}

unfoldable pub activate_rate_card : String → String → ℕ → RateCards → Option RateCard × RateCards
activate_rate_card rate_card_id activated_by now cards =
    modify (activated activated_by now) (lookup rate_card_id cards) rate_card_id cards

unfoldable pub delete_rate_card : String → RateCards → Bool × RateCards
delete_rate_card rate_card_id cards = (has_key rate_card_id cards, erase rate_card_id cards)

-- `if provider:`: neither `None` nor the empty text filters.
abbrev pub asks : Option String → String → Bool
asks none text = true
asks (some wanted) text = if wanted == "" then true else text == wanted

abbrev pub is_of : Option String → RateCard → Bool
is_of provider card = asks provider card.provider

abbrev pub has_status : Option String → RateCard → Bool
has_status status card = asks status card.status

-- `sorted(…, key=lambda c: c.effective_from, reverse=True)`: cards of the same time keep their order.
unfoldable pub place : RateCard → List RateCard → List RateCard
place card [] = card ∷ []
place card (c ∷ cards) =
    let rest = place card cards in
    if leb c.effective_from card.effective_from then card ∷ c ∷ cards else c ∷ rest

unfoldable pub newest_first : List RateCard → List RateCard
newest_first [] = []
newest_first (card ∷ cards) = place card (newest_first cards)

unfoldable pub list_rate_cards : Option String → Option String → RateCards → List RateCard
list_rate_cards provider status cards =
    newest_first (select (has_status status) (select (is_of provider) (values cards)))
