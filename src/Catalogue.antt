-- ===== src/Catalogue.antt =====
-- The pages of the administration that list, create, change and delete rows of one kind, under
-- client/src/app/pages/admin/: the state of a page and its handlers, as AreasPage.tsx writes them. The
-- children are the kinds of rows and what is proved of the pages. A handler that awaits requests is
-- run to its end before the next event.
pub mod Organization
pub mod Units
pub mod Jobs
pub mod Functions
pub mod Events
pub mod Laws
pub mod Errors
pub mod Refinement
pub mod Writes
pub mod Codes
pub mod Pages
pub mod Kinds
pub mod InUse
pub mod Assignment
pub mod Samples
pub mod LastPage
pub mod Crossing
mod Tests
use sigecat_oraculos.Prelude.{
  ℕ, Bool, true, false, not, ◌&&◌, every, ◌==◌, text_eq, Option, none, some, is_some, List, [], ◌∷◌,
  ◌++◌, Text, or_else, if◌then◌else◌, Result, ok, err,
}
use sigecat_oraculos.Js.Strings.{trim}
use sigecat_oraculos.Logs.{Paginated}
use sigecat_oraculos.Services.{ServiceError, ListParams, Service}

-- what `snackbar` is told to show
pub data Notice : Type 0 where
  success error : Text → Notice

-- What a handler does once its request is answered, in the order in which it takes effect: a load that
-- is not awaited ends after the rest of the handler.
pub data Step : Type 0 where
  close_modal clear_delete reload : Step
  announce : Notice → Step

-- What tells one page from another. A form is a text in each of its fields.
pub record Kind (Item Field Payload : Type 0) : Type 0 where
  pub same : Field → Field → Bool
  pub fields : List Field
  pub id_of : Item → Text
  pub empty_form : Field → Text
  pub form_of : Item → Field → Text
  pub errors_of : (Field → Text) → Field → Option Text
  pub create_payload : (Field → Text) → Payload
  pub update_payload : (Field → Text) → Payload
  pub status : Option Text
  pub skips_same_filter : Bool
  pub load_failed : Text
  pub save_failed : Text
  pub delete_failed : Text
  pub created : List Step
  pub updated : List Step
  pub deleted : List Step
  pub not_deleted : List Step

-- the state of a page; the target of an edit is the row, where SectionsPage and DepartmentsPage keep
-- its id
pub record State (Item Field : Type 0) : Type 0 where
  pub rows : List Item
  pub total_pages : Option ℕ
  pub page : ℕ
  pub search : Text
  pub applied_filter : Text
  pub loading : Bool
  pub form_open : Bool
  pub edit_target : Option Item
  pub view_target : Option Item
  pub delete_target : Option Item
  pub form : Field → Text
  pub form_errors : Field → Option Text
  pub is_submitting : Bool
  pub notices : List Notice

abbrev pub limit : ℕ
limit = 10

-- `e.message ?? 'Error del servidor.'`
abbrev pub shown : Text → ServiceError → Notice
shown default e = error (or_else e.message default)

abbrev pub notify : {Item Field : Type 0} → Notice → State Item Field → State Item Field
notify notice s = record s { notices = notice ∷ s.notices }

abbrev pub close : {Item Field : Type 0} → State Item Field → State Item Field
close s = record s { form_open = false; view_target = none; edit_target = none }

abbrev pub done : {Item Field : Type 0} → State Item Field → State Item Field
done s = record s { is_submitting = false }

-- the two branches of a load, and its `finally`
abbrev pub loaded :
    {Item Field : Type 0}
    → Text
    → Result {0, 0} ServiceError (Paginated Item)
    → State Item Field
    → State Item Field
loaded default (ok res) s = record s {
  rows = res.rows;
  total_pages = res.total_pages;
  loading = false;
}
loaded default (err e) s = record s { notices = shown default e ∷ s.notices; loading = false }

abbrev pub set : {Field A : Type 0} → (Field → Field → Bool) → Field → A → (Field → A) → Field → A
set same field value form f = if same field f then value else form f

module _ {Item Field Payload : Type 0} (kind : Kind Item Field Payload) where
  abbrev pub start : State Item Field
  start = record {
    rows = [];
    total_pages = none;
    page = 1;
    search = [];
    applied_filter = [];
    loading = false;
    form_open = false;
    edit_target = none;
    view_target = none;
    delete_target = none;
    form = kind.empty_form;
    form_errors = λ field. none;
    is_submitting = false;
    notices = [];
  }

  unfoldable pub open_create : State Item Field → State Item Field
  open_create s = record s {
    edit_target = none;
    view_target = none;
    form = kind.empty_form;
    form_errors = λ field. none;
    form_open = true;
  }

  unfoldable pub open_edit : Item → State Item Field → State Item Field
  open_edit item s = record s {
    edit_target = some item;
    view_target = none;
    form = kind.form_of item;
    form_errors = λ field. none;
    form_open = true;
  }

  unfoldable pub open_view : Item → State Item Field → State Item Field
  open_view item s = record s {
    view_target = some item;
    edit_target = none;
    form = kind.form_of item;
    form_errors = λ field. none;
    form_open = true;
  }

  -- an error of the field is cleared, and where there is none nothing is to clear
  unfoldable pub handle_form_change : Field → Text → State Item Field → State Item Field
  handle_form_change field value s = record s {
    form = set kind.same field value s.form;
    form_errors = set kind.same field none s.form_errors;
  }

  unfoldable pub set_delete_target : Option Item → State Item Field → State Item Field
  set_delete_target target s = record s { delete_target = target }

  -- `Object.keys(errors).length === 0`
  unfoldable pub is_valid : (Field → Text) → Bool
  is_valid form = every (λ field. not (is_some (kind.errors_of form field))) kind.fields

module _ {Item Field Payload S : Type 0} (kind : Kind Item Field Payload)
    (service : Service S Item Payload) where
  unfoldable pub load : S → State Item Field → State Item Field
  load store s =
      loaded kind.load_failed
        (service.list_page
          (record { page = s.page; limit = limit; filter = s.applied_filter; status = kind.status })
          store)
        (record s { loading = true })

  abbrev pub perform : Step → S → State Item Field → State Item Field
  unfolding load
  perform close_modal store s = close s
  perform clear_delete store s = record s { delete_target = none }
  perform reload store s = load store s
  perform (announce notice) store s = notify notice s

  unfoldable pub perform_all : List Step → S → State Item Field → State Item Field
  unfolding perform
  perform_all [] store s = s
  perform_all (step ∷ steps) store s = perform_all steps store (perform step store s)

  -- the answer to a creation or an update: what is done after it, or the notice of the error
  abbrev pub saved :
      List Step → S × Result {0, 0} ServiceError Unit → State Item Field → S × State Item Field
  unfolding perform_all
  saved steps (store, ok accepted) s = (store, done (perform_all steps store s))
  saved steps (store, err e) s = (store, done (notify (shown kind.save_failed e) s))

  abbrev pub save : Option Item → (Field → Text) → S → State Item Field → S × State Item Field
  save none form store s = saved kind.created (service.create (kind.create_payload form) store) s
  save (some item) form store s =
      saved kind.updated (service.update (kind.id_of item) (kind.update_payload form) store) s

  unfoldable pub handle_confirm : S → State Item Field → S × State Item Field
  unfolding is_valid
  handle_confirm store s =
      if is_valid kind s.form
      then save s.edit_target s.form store
          (record s { form_errors = kind.errors_of s.form; is_submitting = true })
      else (store, record s { form_errors = kind.errors_of s.form })

  abbrev pub removed : S × Result {0, 0} ServiceError Unit → State Item Field → S × State Item Field
  unfolding perform_all
  removed (store, ok accepted) s = (store, done (perform_all kind.deleted store s))
  removed (store, err e) s =
      (store, done (perform_all kind.not_deleted store (notify (shown kind.delete_failed e) s)))

  abbrev pub remove : Option Item → S → State Item Field → S × State Item Field
  remove none store s = (store, s)
  remove (some item) store s =
      removed (service.remove (kind.id_of item) store) (record s { is_submitting = true })

  unfoldable pub handle_delete : S → State Item Field → S × State Item Field
  handle_delete store s = remove s.delete_target store s

  -- The page and the filter are set, and the effect that depends on them loads the rows when one of
  -- them is another.
  unfoldable pub show : ℕ → Text → S → State Item Field → State Item Field
  unfolding load
  show page filter store s =
      if (page == s.page) && text_eq filter s.applied_filter
      then s
      else load store (record s { page = page; applied_filter = filter })

  unfoldable pub go_to_page : ℕ → S → State Item Field → State Item Field
  unfolding show
  go_to_page page store s = show page s.applied_filter store s

  -- The effect of the search box once it has rested for 400 ms. Some pages leave everything as it is
  -- where the filter stays the same; the others go to the first page.
  unfoldable pub search_settled : Text → S → State Item Field → State Item Field
  unfolding show
  search_settled text store s =
      if kind.skips_same_filter && text_eq (trim text) s.applied_filter
      then record s { search = text }
      else show 1 (trim text) store (record s { search = text })
