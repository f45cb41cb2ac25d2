-- ===== src/Resources/Fitness.antt =====
-- frontend/src/pages/resources/ResourcesPage.tsx with its modals: what is asked of the server is fit,
-- and each operation keeps it so.
use group_management_ui_back.Prelude.{
  ℕ, String, ◌≡◌, refl, Bool, true, false, Bool-cases, inl, inr, Option, none, some, List, eqb, All,
  is_blank, NoSpace, strip_spaces-NoSpace, arith,
}
use group_management_ui_back.Json.{Num}
use group_management_ui_back.Types.{Resource, RemoteNetwork}
use group_management_ui_back.Api.{ResourceData}
use group_management_ui_back.Pages.{load_data, data_loaded, close_edit, close_modal}
use group_management_ui_back.AddResource
use group_management_ui_back.EditResource
use group_management_ui_back.Resources.{
  Call, add_resource, update_resource, Page, is_loading, show_spinner, start_load, if_open, effects,
  add_effect, edit_effect, updating, finish_load, start_add, finish_add, cancel_edit, finish_save,
  finish_networks,
}
use group_management_ui_back.Resources.Events.{Event, edits, when}

-- The data of a resource has a network, a name and an address.
abbrev pub IsFilled : ResourceData → Type 0
IsFilled d =
    (is_blank d.network_id ≡ false) × (is_blank d.name ≡ false) × (is_blank d.address ≡ false)

module _ (P : Resource → Type 0) where
  -- An update is for one of some resources; an address that is added has no white space.
  abbrev pub IsFit : Call → Type 0
  IsFit (add_resource d) = IsFilled d × NoSpace d.address
  IsFit (update_resource id d) = IsFilled d × ((r : Resource) × P r × (id ≡ r.id))

  abbrev pub OpensOnly : Event → Type 0
  OpensOnly (edits r) = P r
  OpensOnly _ = Unit

  abbrev pub EditsOnly : Option Resource → Type 0
  EditsOnly none = Unit
  EditsOnly (some r) = P r

  pub record IsGood (s : Page) : Type 0 where
    pub address : NoSpace s.add.address
    pub editing : EditsOnly s.inventory.editing_resource
    pub fit : All IsFit s.calls

  pub start_load-IsGood : (s : Page) → IsGood s → IsGood (start_load s)
  unfolding start_load show_spinner load_data AddResource.initial
  start_load-IsGood s h = record { address = tt; editing = h.editing; fit = h.fit }

  pub if_open-IsGood :
      (b : Bool) (f : Page → Page) (s : Page)
      → (IsGood s → IsGood (f s))
      → IsGood s
      → IsGood (if_open b f s)
  if_open-IsGood true f s g h = g h
  if_open-IsGood false f s g h = h

  pub when-IsGood : (b : Bool) (t s : Page) → (b ≡ true → IsGood t) → IsGood s → IsGood (when b t s)
  when-IsGood true t s g h = g refl
  when-IsGood false t s g h = h

  pub add_effect-IsGood : (s : Page) → IsGood s → IsGood (add_effect s)
  unfolding AddResource.open_modal
  add_effect-IsGood s h = record { address = h.address; editing = h.editing; fit = h.fit }

  pub edit_effect-IsGood : (s : Page) → IsGood s → IsGood (edit_effect s)
  edit_effect-IsGood s h = record { address = h.address; editing = h.editing; fit = h.fit }

  pub effects-IsGood : (s : Page) → IsGood s → IsGood (effects s)
  effects-IsGood s h =
      let s' = if_open s.inventory.page.add_open add_effect s in
      if_open-IsGood s.inventory.is_edit_modal_open edit_effect s' (edit_effect-IsGood s')
        (if_open-IsGood s.inventory.page.add_open add_effect s (add_effect-IsGood s) h)

  pub finish_load-IsGood :
      (rs : Option (List Resource)) (ns : Option (List RemoteNetwork)) (s : Page)
      → IsGood s
      → IsGood (finish_load rs ns s)
  unfolding finish_load data_loaded
  finish_load-IsGood rs ns s h =
      let s' : Page = record s { inventory = data_loaded rs ns s.inventory } in
      let good : IsGood s' = record { address = h.address; editing = h.editing; fit = h.fit } in
      when-IsGood (is_loading s) (effects s') s' (λ _. effects-IsGood s' good) good

  pub enter-NoSpace :
      (i : AddResource.Input) (s : AddResource.State)
      → NoSpace s.address
      → NoSpace (AddResource.enter i s).address
  unfolding AddResource.enter
  enter-NoSpace (AddResource.address_input v) s h = strip_spaces-NoSpace v
  enter-NoSpace _ s h = h

  pub payload-IsFilled :
      (s : AddResource.State) → AddResource.can_submit s ≡ true → IsFilled (AddResource.payload s)
  unfolding AddResource.can_submit AddResource.payload
  payload-IsFilled s h = (ground arith, ground arith, ground arith)

  pub edit_payload-IsFilled :
      (number_of : String → Num) (s : EditResource.State)
      → EditResource.can_submit s ≡ true
      → IsFilled (EditResource.payload number_of s)
  unfolding EditResource.can_submit EditResource.payload
  edit_payload-IsFilled number_of s h = (ground arith, ground arith, ground arith)

  pub start_add-IsGood : (s : Page) → IsGood s → IsGood (start_add s).1
  unfolding start_add AddResource.start_submit AddResource.payload
  start_add-IsGood s h = elim (Bool-cases (AddResource.can_submit s.add)) [
    | inl e ↦ rw e (record {
      address = h.address;
      editing = h.editing;
      fit = ((payload-IsFilled s.add e, h.address), h.fit);
    })
    | inr e ↦ rw e h
  ]

  pub saving-IsGood :
      (number_of : String → Num) (r : Option Resource) (s : Page)
      → IsGood s
      → EditsOnly r
      → IsGood
          (let (request, edit) = EditResource.start_submit number_of r s.edit in
            updating request (record s { edit = edit })).1
  unfolding EditResource.start_submit
  saving-IsGood number_of none s h e = h
  saving-IsGood number_of (some r) s h p = elim (Bool-cases (EditResource.can_submit s.edit)) [
    | inl e ↦ rw e (record {
      address = h.address;
      editing = h.editing;
      fit = ((edit_payload-IsFilled number_of s.edit e, (r, p, refl)), h.fit);
    })
    | inr e ↦ rw e h
  ]

  pub finish_add-IsGood :
      (ok : Bool) (flight : ℕ) (s : Page) → IsGood s → IsGood (finish_add ok flight s)
  unfolding finish_add AddResource.finish_submit close_modal
  finish_add-IsGood true flight s h =
      let g = start_load-IsGood s h in
      record { address = g.address; editing = g.editing; fit = g.fit }
  finish_add-IsGood false flight s h = elim (Bool-cases (eqb flight s.mounts)) [
    | inl e ↦ rw e (record { address = h.address; editing = h.editing; fit = h.fit })
    | inr e ↦ rw e h
  ]

  pub finish_save-IsGood :
      (ok : Bool) (flight : ℕ) (s : Page) → IsGood s → IsGood (finish_save ok flight s)
  unfolding finish_save cancel_edit close_edit
  finish_save-IsGood true flight s h =
      let g = start_load-IsGood s h in record { address = g.address; editing = tt; fit = g.fit }
  finish_save-IsGood false flight s h = elim (Bool-cases (eqb flight s.mounts)) [
    | inl e ↦ rw e (record { address = h.address; editing = h.editing; fit = h.fit })
    | inr e ↦ rw e h
  ]

  pub networks-address :
      (ns : Option (List RemoteNetwork)) (s : AddResource.State)
      → NoSpace s.address
      → NoSpace (AddResource.receive_networks ns s).address
  unfolding AddResource.receive_networks
  networks-address none s h = h
  networks-address (some ns) s h = h

  pub finish_networks-IsGood :
      (b : Bool) (ns : Option (List RemoteNetwork)) (flight : ℕ) (s : Page)
      → IsGood s
      → IsGood (finish_networks b ns flight s)
  unfolding finish_networks
  finish_networks-IsGood b ns flight s h = elim (Bool-cases (eqb flight s.mounts)) [
    | inl e ↦ elim (Bool-cases b) [
      | inl k ↦
          rw (e, k)
            (record {
              address = networks-address ns s.add h.address;
              editing = h.editing;
              fit = h.fit;
            })
      | inr k ↦ rw (e, k) (record { address = h.address; editing = h.editing; fit = h.fit })
    ]
    | inr e ↦ rw e h
  ]
