-- ===== src/Cli/Server/Listing.antt =====
-- What `server list` shows of the backend's servers.
use stdiod.Base.{
  ℕ, suc, String, Bool, true, false, ◌≡◌, refl, ◌∙◌, ap, List, [], ◌∷◌, if◌then◌else◌, if_rule,
  arith, Bool-cases, inl, inr, All, some, same_text?_iff,
}
use stdiod.Cli.Server.{ServerListItem, text_leb, insert_by_name, sort_by_name, retain, is_own}

-- How many items pass a test.
unfoldable pub count : (ServerListItem → Bool) → List ServerListItem → ℕ
count test [] = 0
count test (item ∷ rest) = let more = count test rest in if test item then suc more else more

-- No item comes before one with a smaller name.
unfoldable pub IsSorted : List ServerListItem → Type 0
IsSorted [] = Unit
IsSorted (item ∷ []) = Unit
IsSorted (item ∷ next ∷ rest) = (text_leb item.name next.name ≡ true) × IsSorted (next ∷ rest)

text_leb-total : (s t : String) → text_leb s t ≡ false → text_leb t s ≡ true
unfolding text_leb
text_leb-total String.[] t h = cc
text_leb-total (String.◌∷◌ c s) String.[] h = refl
text_leb-total (String.◌∷◌ c s) (String.◌∷◌ d t) h = ground (arith, text_leb-total s t)

-- An item that is to be put into a sorted list behind its first.
behind :
    (item first : ServerListItem) (rest : List ServerListItem)
    → text_leb item.name first.name ≡ false
    → IsSorted (first ∷ rest)
    → IsSorted (insert_by_name item rest)
    → IsSorted (first ∷ insert_by_name item rest)
unfolding IsSorted insert_by_name
behind item first [] later h sorted = (text_leb-total item.name first.name later, tt)
behind item first (next ∷ rest) later (before, h) sorted =
    elim (Bool-cases (text_leb item.name next.name)) [
      | inl e ↦ rw e (text_leb-total item.name first.name later, (e, h))
      | inr e ↦ rw e (before, let s = rw e at sorted in s)
    ]

IsSorted-tail :
    (first : ServerListItem) (rest : List ServerListItem) → IsSorted (first ∷ rest) → IsSorted rest
unfolding IsSorted
IsSorted-tail first [] h = tt
IsSorted-tail first (next ∷ rest) h = h.1

insert_by_name-IsSorted :
    (item : ServerListItem) (items : List ServerListItem)
    → IsSorted items
    → IsSorted (insert_by_name item items)
unfolding IsSorted insert_by_name
insert_by_name-IsSorted item [] h = tt
insert_by_name-IsSorted item (first ∷ rest) h =
    if_rule IsSorted (text_leb item.name first.name) (item ∷ first ∷ rest)
      (first ∷ insert_by_name item rest) (λ e. (e, h))
      λ e.
        behind item first rest e h (insert_by_name-IsSorted item rest (IsSorted-tail first rest h))

pub sort_by_name-IsSorted : (items : List ServerListItem) → IsSorted (sort_by_name items)
unfolding sort_by_name IsSorted
sort_by_name-IsSorted [] = tt
sort_by_name-IsSorted (item ∷ rest) =
    insert_by_name-IsSorted item (sort_by_name rest) (sort_by_name-IsSorted rest)

module _ (test : ServerListItem → Bool) where
  count-insert_by_name :
      (item : ServerListItem) (items : List ServerListItem)
      → count test (insert_by_name item items) ≡ count test (item ∷ items)
  unfolding count insert_by_name
  count-insert_by_name item [] = refl
  count-insert_by_name item (first ∷ rest) = ground (arith, count-insert_by_name item rest)

  pub count-sort_by_name :
      (items : List ServerListItem) → count test (sort_by_name items) ≡ count test items
  unfolding count sort_by_name
  count-sort_by_name [] = refl
  count-sort_by_name (item ∷ rest) =
      count-insert_by_name item (sort_by_name rest)
      ∙ ap (λ n. if test item then suc n else n) (count-sort_by_name rest)

  -- Items that pass the test are retained, so none of them is lost.
  pub count-retain :
      (keeps : ServerListItem → Bool) (items : List ServerListItem)
      → ((item : ServerListItem) → test item ≡ true → keeps item ≡ true)
      → count test (retain keeps items) ≡ count test items
  unfolding count retain
  count-retain keeps [] h = refl
  count-retain keeps (item ∷ rest) h = elim (Bool-cases (test item)) [
    | inl e ↦
        rw (h item e, count) (ap (λ n. if test item then suc n else n) (count-retain keeps rest h))
    | inr e ↦ elim (Bool-cases (keeps item)) [
      | inl k ↦ rw (k, count) (ap (λ n. if test item then suc n else n) (count-retain keeps rest h))
      | inr k ↦ rw (k, e) (count-retain keeps rest h)
    ]
  ]

-- A server that the tunnel runs on the device.
abbrev pub IsOwn : String → ServerListItem → Type 0
IsOwn device item = (item.transport_type ≡ some "stdio_tunnel") × (item.device_id ≡ some device)

pub is_own_iff :
    (device : String) (item : ServerListItem)
    → ((is_own device item ≡ true) → IsOwn device item)
      × (IsOwn device item → (is_own device item ≡ true))
unfolding is_own
is_own_iff device item =
    let transport = same_text?_iff item.transport_type (some "stdio_tunnel") in
    let own = same_text?_iff item.device_id (some device) in
    (
      λ e. (transport.0 (ground arith), own.0 (ground arith)),
      λ p. rw (transport.1 p.0, own.1 p.1) refl,
    )

pub retain-IsOwn :
    (device : String) (items : List ServerListItem)
    → All (IsOwn device) (retain (is_own device) items)
unfolding retain
retain-IsOwn device [] = tt
retain-IsOwn device (item ∷ rest) =
    if_rule (All (IsOwn device)) (is_own device item) (item ∷ retain (is_own device) rest)
      (retain (is_own device) rest) (λ e. ((is_own_iff device item).0 e, retain-IsOwn device rest))
      (λ _. retain-IsOwn device rest)

insert_by_name-All :
    (P : ServerListItem → Type 0) (item : ServerListItem) (items : List ServerListItem)
    → P item
    → All P items
    → All P (insert_by_name item items)
unfolding insert_by_name
insert_by_name-All P item [] p h = (p, tt)
insert_by_name-All P item (first ∷ rest) p h =
    if_rule (All P) (text_leb item.name first.name) (item ∷ first ∷ rest)
      (first ∷ insert_by_name item rest) (λ _. (p, h))
      (λ _. (h.0, insert_by_name-All P item rest p h.1))

pub sort_by_name-All :
    (P : ServerListItem → Type 0) (items : List ServerListItem)
    → All P items
    → All P (sort_by_name items)
unfolding sort_by_name
sort_by_name-All P [] h = tt
sort_by_name-All P (item ∷ rest) h =
    insert_by_name-All P item (sort_by_name rest) h.0 (sort_by_name-All P rest h.1)
