-- ===== src/Memory/Searching.antt =====
-- agent_memory.py: what a search asks for, and what it shows of the answer.
use moomacha.Memory.{wire_ns, self_ns, in_scope, scoped, listed, search, Item, Request, Service}
use moomacha.Base.{
  ℕ, ◌*◌, ◌≤◌, String, ◌<>◌, ◌≡◌, refl, ◌↔◌, ◌⊎◌, inl, inr, true, false, Option, none, some, List,
  [], ◌∷◌, arith, eq_iff, ltb, leb, if◌then◌else◌, Bool-cases, length, filter, All, All-impl,
  All-filter, length-take-le, take_of_length-le, All-take, All-filter_test, In, filter-In, All-and,
  length-take_of_le, self-In,
}
use moomacha.Base.Results.{ok}
use moomacha.ToolAccess.{contains, ToolContext}

contains_two :
    (o : Option String) (a b : String)
    → (elim o [ none ↦ false | some ns ↦ contains ns (a ∷ b ∷ []) ]) ≡ true
      ↔ ((o ≡ some a) ⊎ (o ≡ some b))
unfolding contains
contains_two none a b = (λ h. absurd (cc h), λ h. elim h [ inl e ↦ cc e | inr e ↦ cc e ])
contains_two (some ns) a b = ground (arith, eq_iff a ns, eq_iff b ns)

module _ (show_uuid : ℕ → String) (service : Service) where
  -- The namespaces that an agent may read.
  abbrev pub readable : ToolContext → List String
  readable ctx = wire_ns (self_ns show_uuid ctx) ∷ wire_ns ("channel:" <> ctx.channel) ∷ []

  -- A memory of the agent itself or of the channel that it is in.
  abbrev pub IsReadable : ToolContext → Item → Type 0
  IsReadable ctx i =
      (i.namespace ≡ some (wire_ns (self_ns show_uuid ctx)))
      ⊎ (i.namespace ≡ some (wire_ns ("channel:" <> ctx.channel)))

  in_scope_iff :
      (ctx : ToolContext) (i : Item) → in_scope show_uuid service ctx i ≡ true ↔ IsReadable ctx i
  in_scope_iff ctx i = contains_two i.namespace _ _

  -- The first `limit` of the items that may be read.
  scoped_lem :
      (ctx : ToolContext) (limit : ℕ) (raw : List Item)
      → (length (scoped show_uuid service ctx limit raw) ≤ limit)
        × All (λ i. In i raw × IsReadable ctx i) (scoped show_uuid service ctx limit raw)
        × ((length (scoped show_uuid service ctx limit raw) ≡ limit)
            ⊎ All (λ i. IsReadable ctx i → In i (scoped show_uuid service ctx limit raw)) raw)
  unfolding scoped
  scoped_lem ctx limit raw =
      let test = in_scope show_uuid service ctx in
      (
        length-take-le limit _,
        All-take _ limit _ (
            All-and (λ i. In i raw) (λ i. IsReadable ctx i) (filter test raw)
              (All-filter (λ i. In i raw) test raw (self-In raw))
              (All-impl (λ i. test i ≡ true) (IsReadable ctx) (filter test raw)
                (λ i e. (in_scope_iff ctx i).0 e) (All-filter_test test raw))),
        elim (Bool-cases (leb (length (filter test raw)) limit)) [
          | inl short ↦ inr (
              rw (take_of_length-le limit (filter test raw) (ground arith)) (
                All-impl (λ i. test i ≡ true → In i (filter test raw))
                  (λ i. IsReadable ctx i → In i (filter test raw)) raw
                  (λ i keep may. keep ((in_scope_iff ctx i).1 may)) (filter-In test raw)))
          | inr long ↦ inl (length-take_of_le limit (filter test raw) (ground arith))
        ],
      )

  -- When the service answers a search over the namespaces of the agent and of its channel: the tool
  -- shows memories of the answer that are of one of the two, at most as many as the limit, and
  -- either just as many or all of them.
  pub search_lem :
      (query : String) (limit : ℕ) (ctx : ToolContext) (sent : List Request) (raw : List Item)
      → service.items sent query (if ltb (limit * 5) 25 then 25 else limit * 5) (readable ctx)
        ≡ ok raw
      → (items : List Item) × ((search show_uuid service query limit ctx sent).0
          ≡ ok (record { success = true; content = listed show_uuid service items }))
        × (length items ≤ limit)
        × All (λ i. In i raw × IsReadable ctx i) items
        × ((length items ≡ limit) ⊎ All (λ i. IsReadable ctx i → In i items) raw)
  unfolding search
  search_lem query limit ctx sent raw found =
      let (short, fine, full) = scoped_lem ctx limit raw in
      (scoped show_uuid service ctx limit raw, rw (found) refl, short, fine, full)
