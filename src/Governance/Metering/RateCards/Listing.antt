-- ===== src/Governance/Metering/RateCards/Listing.antt =====
-- What the operations on rate cards promise.
use multi_agent_langgraph.Base.{
  ℕ, ◌+◌, ◌≡◌, ◌≢◌, refl, ◌∙◌, arith, String, Bool, true, ◌&&◌, Option, none, some, List, [], ◌∷◌,
  leb, ◌==◌, string_key, if◌then◌else◌, select, all, count_if,
}
use multi_agent_langgraph.Base.Dict.{lookup, insert, lookup-insert, lookup-erase, values}
use multi_agent_langgraph.Governance.Metering.RateCards.{
  RateCard, RateCardCreate, RateCards, get_rate_card, create_rate_card, new_card,
  activate_rate_card, activated, delete_rate_card, is_of, has_status, place, newest_first,
  list_rate_cards,
}

-- Every card is followed by cards that take effect at its time or before.
abbrev not_after : ℕ → RateCard → Bool
not_after time card = leb card.effective_from time

unfoldable pub descending : List RateCard → Bool
descending [] = true
descending (card ∷ cards) = all (not_after card.effective_from) cards && descending cards

all-place :
    (p : RateCard → Bool) (card : RateCard) (cards : List RateCard)
    → all p (place card cards) ≡ (p card && all p cards)
unfolding place all
all-place p card [] = refl
all-place p card (c ∷ cards) = ground (arith, all-place p card cards)

all-not_after :
    (a b : ℕ) (cards : List RateCard)
    → leb a b ≡ true
    → all (not_after a) cards ≡ true
    → all (not_after b) cards ≡ true
unfolding all
all-not_after a b [] l h = refl
all-not_after a b (c ∷ cards) l h = ground (arith, all-not_after a b cards)

descending-place :
    (card : RateCard) (cards : List RateCard)
    → descending cards ≡ true
    → descending (place card cards) ≡ true
unfolding place descending all
descending-place card [] h = refl
descending-place card (c ∷ cards) h = ground (
  arith,
  all-place (not_after c.effective_from) card cards,
  descending-place card cards,
  all-not_after c.effective_from card.effective_from cards,
)

descending-newest_first : (cards : List RateCard) → descending (newest_first cards) ≡ true
unfolding newest_first descending
descending-newest_first [] = refl
descending-newest_first (card ∷ cards) =
    descending-place card (newest_first cards) (descending-newest_first cards)

module _ (p : RateCard → Bool) where
  count_if-place :
      (card : RateCard) (cards : List RateCard)
      → count_if p (place card cards) ≡ (if p card then 1 else 0) + count_if p cards
  unfolding place count_if
  count_if-place card [] = refl
  count_if-place card (c ∷ cards) = ground (arith, count_if-place card cards)

  count_if-newest_first :
      (cards : List RateCard) → count_if p (newest_first cards) ≡ count_if p cards
  unfolding newest_first count_if
  count_if-newest_first [] = refl
  count_if-newest_first (card ∷ cards) =
      let placed = count_if-place card (newest_first cards) in
      let rest = count_if-newest_first cards in omega (arith, placed, rest)

  count_if-select :
      (q : RateCard → Bool) (cards : List RateCard)
      → count_if p (select q cards) ≡ count_if (λ c. q c && p c) cards
  unfolding count_if select
  count_if-select q [] = refl
  count_if-select q (c ∷ cards) = ground (arith, count_if-select q cards)

-- A listing has the newest card first, and each card as often as the ledger has it if its provider and
-- status are those asked for, and not otherwise.
pub list_rate_cards-descending :
    (provider status : Option String) (cards : RateCards)
    → (descending (list_rate_cards provider status cards) ≡ true)
      × ((p : RateCard → Bool)
          → count_if p (list_rate_cards provider status cards)
            ≡ count_if (λ c. is_of provider c && (has_status status c && p c)) (values cards))
unfolding list_rate_cards
list_rate_cards-descending provider status cards = (
  descending-newest_first (select (has_status status) (select (is_of provider) (values cards))),
  λ p.
      count_if-newest_first p (select (has_status status) (select (is_of provider) (values cards)))
      ∙ count_if-select p (has_status status) (select (is_of provider) (values cards))
      ∙ count_if-select (λ c. has_status status c && p c) (is_of provider) (values cards),
)

module _ (id : String) (card : RateCard) (by : String) (now : ℕ) (cards : RateCards) where
  abbrev created : RateCards
  created = insert id card cards

  lookup-created : lookup id created ≡ some card
  lookup-created = ground (arith, lookup-insert id id card cards, string_key.beq_iff id id)

  activate-created :
      (activate_rate_card id by now created).1 ≡ insert id (activated by now card) created
  unfolding activate_rate_card
  activate-created = rw lookup-created

  lookup-active :
      (other : String)
      → lookup other (activate_rate_card id by now created).1
        ≡ (if id == other then some (activated by now card) else lookup other cards)
  lookup-active other = rw activate-created (
      ground (
        arith,
        lookup-insert id other (activated by now card) created,
        lookup-insert id other card cards,
      ))

-- A card that was created is a draft under its id; activating it makes it active there, by whom and
-- when the call says; deleting it afterwards succeeds and leaves nothing under the id. Cards under
-- other ids stay as they were.
pub rate_card_lifecycle :
    (uuid : String) (d : RateCardCreate) (by : String) (now : ℕ) (cards : RateCards)
    (other : String)
    → let card = new_card uuid d in
      let id = card.rate_card_id in
      let created = (create_rate_card uuid d cards).1 in
      let active = (activate_rate_card id by now created).1 in
      let deleted = delete_rate_card id active in
      (get_rate_card id created ≡ some card)
      × (get_rate_card id active ≡ some (activated by now card))
      × (deleted.0 ≡ true)
      × (get_rate_card id deleted.1 ≡ none)
      × (id ≢ other → get_rate_card other deleted.1 ≡ get_rate_card other cards)
unfolding create_rate_card delete_rate_card get_rate_card
rate_card_lifecycle uuid d by now cards other =
    let card = new_card uuid d in
    let id = card.rate_card_id in
    let active = (activate_rate_card id by now (insert id card cards)).1 in
    let own = string_key.beq_iff id id in
    (
      lookup-created id card by now cards,
      ground (arith, own, lookup-active id card by now cards id),
      ground (arith, own, lookup-active id card by now cards id),
      ground (arith, own, lookup-erase id id active),
      λ n. ground (
        arith,
        string_key.beq_iff id other,
        lookup-erase id other active,
        lookup-active id card by now cards other,
      ),
    )
