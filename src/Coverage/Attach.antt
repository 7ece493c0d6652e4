-- ===== src/Coverage/Attach.antt =====
-- When coverage-bridge.ts sends a transaction, and what it sends.
use repayd.Common.{
  ℕ, suc, ◌≤◌, ◌≡◌, ◌↔◌, refl, sym, ◌∙◌, String, true, not, Option, none, some, ltb, arith,
  Bool-cases, inl, inr, same_address, ap,
}
use mathlib.Core.Path.{subst}
use repayd.Coverage.Store.{PolicyRequest}
use repayd.Coverage.Schema.{Parse, fail, ok}
use repayd.Coverage.Bounds.{ok_injective, bind-ok, then-ok}
use repayd.Coverage.Bridge.{
  BridgeConfig, Node, Ownership, not_owned, owned, Transaction, Prepared, AttachResult, sent,
  non_empty, has_code, compare_owner, verify_guard_ownership, registry_of, require_owned,
  bridge_policy, to_on_chain_policy, prepare_attach, attach_prepared, after_send, result_of,
  attach_on_chain,
}

-- the wallet is a contract with an OWNER that is the address of the configured key
pub record OwnsGuard (node : Node) (config : BridgeConfig) (wallet owner : String) : Type 0 where
  pub code : Option String
  pub is_code : node.bytecode wallet ≡ ok code
  pub deployed : has_code code ≡ true
  pub is_owner : node.owner_of wallet ≡ some owner
  pub key_address : String
  pub is_key_address : node.address_of config.private_key ≡ ok key_address
  pub same : same_address owner key_address ≡ true

-- a precheck that answers with a reason is no ownership
not_owned-refused :
    (reason owner : String) (o : Ownership)
    → ok (not_owned reason) ≡ ok o
    → require_owned o ≡ ok owner
    → ⊥
not_owned-refused reason owner (not_owned e) h hr = ground arith
not_owned-refused reason owner (owned x) h hr = ground arith

owned-same :
    (found owner : String) (o : Ownership)
    → ok (owned found) ≡ ok o
    → require_owned o ≡ ok owner
    → found ≡ owner
owned-same found owner (not_owned e) h hr = absurd (ground arith)
owned-same found owner (owned x) h hr = ground arith

module _ (node : Node) (config : BridgeConfig) (wallet : String) where
  compare_owner-OwnsGuard :
      (code : Option String) (ownership : Ownership) (owner : String)
      → node.bytecode wallet ≡ ok code
      → has_code code ≡ true
      → (found : Option String) → node.owner_of wallet ≡ found
      → compare_owner found (node.address_of config.private_key) ≡ ok ownership
      → require_owned ownership ≡ ok owner
      → OwnsGuard node config wallet owner
  compare_owner-OwnsGuard code ownership owner hc deployed none hf h hr =
      absurd (not_owned-refused _ owner ownership h hr)
  compare_owner-OwnsGuard code ownership owner hc deployed (some found) hf h hr =
      let (key_address, is_key_address, h1) =
        bind-ok (node.address_of config.private_key) _ ownership h in
      elim (Bool-cases (same_address found key_address)) [
        | inl e ↦
            let is_found = owned-same found owner ownership (rw e at h1) hr in
            record {
              code = code;
              is_code = hc;
              deployed = deployed;
              is_owner = hf ∙ ap some is_found;
              key_address = key_address;
              is_key_address = is_key_address;
              same = subst (λ x. same_address x key_address ≡ true) is_found e;
            }
        | inr e ↦ absurd (not_owned-refused _ owner ownership (rw e at h1) hr)
      ]

  verify_guard_ownership-OwnsGuard :
      (ownership : Ownership) (owner : String)
      → verify_guard_ownership node config wallet ≡ ok ownership
      → require_owned ownership ≡ ok owner
      → OwnsGuard node config wallet owner
  unfolding verify_guard_ownership
  verify_guard_ownership-OwnsGuard ownership owner h hr =
      let (code, hc, h1) = bind-ok (node.bytecode wallet) _ ownership h in
      elim (Bool-cases (has_code code)) [
        | inl e ↦
            compare_owner-OwnsGuard code ownership owner hc e (node.owner_of wallet) refl
              (rw e at h1) hr
        | inr e ↦ absurd (not_owned-refused _ owner ownership (rw e at h1) hr)
      ]

-- what the bridge has checked of a transaction, and what the transaction says
pub record IsAuthorized (node : Node) (config : BridgeConfig) (req : PolicyRequest)
    (wallet : String) (tx : Transaction) : Type 0 where
  pub owner : String
  pub owns : OwnsGuard node config wallet owner
  pub within : req.per_tx ≤ req.cap
  pub chain : ℕ
  pub is_chain : node.chain_id ≡ ok chain
  pub is_registry : registry_of node (non_empty config.registry_address) chain ≡ ok tx.to
  pub version : ℕ
  pub is_latest : node.latest_version tx.to wallet ≡ ok version
  pub is_payload :
      node.encode_attach wallet (suc version) (bridge_policy req wallet owner) ≡ ok tx.payload
  pub is_sender : node.address_of config.private_key ≡ ok tx.sender

prepare_attach-IsAuthorized :
    (node : Node) (config : BridgeConfig) (req : PolicyRequest) (wallet : String) (p : Prepared)
    → prepare_attach node config req wallet ≡ ok p
    → IsAuthorized node config req wallet p.transaction
unfolding prepare_attach to_on_chain_policy
prepare_attach-IsAuthorized node config req wallet p h =
    let (id, h_id, h1) = bind-ok node.chain_id _ p h in
    let (registry, h_registry, h2) =
      bind-ok (registry_of node (non_empty config.registry_address) id) _ p h1 in
    let (ownership, h_ownership, h3) = bind-ok (verify_guard_ownership node config wallet) _ p h2 in
    let (owner, h_owner, h4) = bind-ok (require_owned ownership) _ p h3 in
    let (sender, h_sender, h5) = bind-ok (node.address_of config.private_key) _ p h4 in
    let (policy, h_policy, h6) = bind-ok (to_on_chain_policy req wallet owner) _ p h5 in
    let (within, h_mapped) = then-ok (not (ltb req.cap req.per_tx)) _ _ policy h_policy in
    let (version, h_version, h7) = bind-ok (node.latest_version registry wallet) _ p h6 in
    let (payload, h_payload, h8) =
      bind-ok (node.encode_attach wallet (suc version) policy) _ p h7 in
    let tx : Transaction = record { sender = sender; to = registry; payload = payload } in
    let q : Prepared = record { registry = registry; version = suc version; transaction = tx } in
    subst (λ x. IsAuthorized node config req wallet x.transaction) (ok_injective q p h8)
      (record {
        owner = owner;
        owns =
            verify_guard_ownership-OwnsGuard node config wallet ownership owner h_ownership h_owner;
        within = not_less req.per_tx req.cap within;
        chain = id;
        is_chain = h_id;
        is_registry = h_registry;
        version = version;
        is_latest = h_version;
        is_payload =
            ap (node.encode_attach wallet (suc version)) (ok_injective _ policy h_mapped)
            ∙ h_payload;
        is_sender = h_sender;
      })
  where
    not_less : (a b : ℕ) → not (ltb b a) ≡ true → a ≤ b
    not_less a b h = ground arith

-- a transaction that was sent is the one that was prepared, and the node has accepted it
attach_prepared-sent :
    (node : Node) (wallet : String) (prepared : Parse Prepared) (tx : Transaction)
    (result : Parse AttachResult)
    → attach_prepared node wallet prepared ≡ sent tx result
    → (p : Prepared) × (prepared ≡ ok p)
      × (p.transaction ≡ tx)
      × ((tx_hash : String) × (node.send p.transaction ≡ ok tx_hash))
attach_prepared-sent node wallet (fail e) tx result h = absurd (ground arith)
attach_prepared-sent node wallet (ok p) tx result h =
    let (same, accepted) = of_send (node.send p.transaction) h in (p, refl, same, accepted)
  where
    of_send :
        (s : Parse String)
        → after_send node wallet p s ≡ sent tx result
        → (p.transaction ≡ tx) × ((tx_hash : String) × (s ≡ ok tx_hash))
    of_send (fail e) h = absurd (ground arith)
    of_send (ok tx_hash) h = (ground arith, (tx_hash, refl))

module _ (node : Node) (config : BridgeConfig) (req : PolicyRequest) (wallet : String)
    (tx : Transaction) where
  -- the prepared transaction of what is authorized
  prepare_attach-ok :
      (a : IsAuthorized node config req wallet tx)
      → prepare_attach node config req wallet
        ≡ ok (record { registry = tx.to; version = suc a.version; transaction = tx })
  unfolding prepare_attach verify_guard_ownership to_on_chain_policy
  prepare_attach-ok a =
      let is_sender_key =
        ok_injective a.owns.key_address tx.sender (sym a.owns.is_key_address ∙ a.is_sender) in
      let same = subst (λ x. same_address a.owner x ≡ true) is_sender_key a.owns.same in
      rw
        (
          a.is_chain,
          a.is_registry,
          a.owns.is_code,
          a.owns.deployed,
          a.owns.is_owner,
          a.is_sender,
          same,
          not_above req.per_tx req.cap a.within,
          a.is_latest,
          a.is_payload,
        )
        refl
    where
      not_above : (x y : ℕ) → x ≤ y → not (ltb y x) ≡ true
      not_above x y h = ground arith

  -- attachOnChain sends a transaction, be it that it throws afterwards, exactly when the node accepts
  -- it and it is authorized: the wallet is a contract whose OWNER is the address of the configured
  -- key, in any case of its letters, and perTx is at most cap; the transaction is sent by that key to
  -- the configured registry, or else to that of the chain's deployment, and attaches the policy of the
  -- request for this owner under the version after the latest.
  pub attach_on_chain-IsAuthorized :
      ((result : Parse AttachResult) × (attach_on_chain node config req wallet ≡ sent tx result))
      ↔ (IsAuthorized node config req wallet tx
          × ((tx_hash : String) × (node.send tx ≡ ok tx_hash)))
  unfolding attach_on_chain
  attach_on_chain-IsAuthorized = (
    λ (result, h). checked result h,
    λ (a, (tx_hash, accepted)). (
      result_of node wallet (record { registry = tx.to; version = suc a.version; transaction = tx })
          tx_hash,
      rw (prepare_attach-ok a, accepted) refl,
    ),
  )
    where
      checked :
          (result : Parse AttachResult)
          → attach_on_chain node config req wallet ≡ sent tx result
          → IsAuthorized node config req wallet tx
            × ((tx_hash : String) × (node.send tx ≡ ok tx_hash))
      checked result h =
          let (p, is_prepared, same, accepted) =
            attach_prepared-sent node wallet (prepare_attach node config req wallet) tx result h in
          subst
            (λ t.
              IsAuthorized node config req wallet t
              × ((tx_hash : String) × (node.send t ≡ ok tx_hash)))
            same (prepare_attach-IsAuthorized node config req wallet p is_prepared, accepted)
