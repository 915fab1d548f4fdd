-- ===== src/Responses/Listing.antt =====
-- A page of a listing: its query parameters and its answer.
use collabflow.Common.{ℕ, Bool, ◌&&◌, List, map, leb}
use collabflow.Responses.{TaskRead, ActivityLogRead, NotificationRead}

-- What the three list responses have in common.
pub record ListResponse (A : Type 0) : Type 0 where
  pub items : List A
  pub total : ℕ
  pub page : ℕ
  pub page_size : ℕ

abbrev pub TaskListResponse : Type 0
TaskListResponse = ListResponse TaskRead

abbrev pub ActivityLogListResponse : Type 0
ActivityLogListResponse = ListResponse ActivityLogRead

abbrev pub NotificationListResponse : Type 0
NotificationListResponse = ListResponse NotificationRead

-- page: int = Query(ge=1), page_size: int = Query(ge=1, le=100); `false` is the answer 422.
unfoldable pub list_query : (page page_size : ℕ) → Bool
list_query page page_size = leb 1 page && leb 1 page_size && leb page_size 100

-- `items, total` to the response
abbrev pub list_response :
    {A B : Type 0} → (A → B) → (page page_size : ℕ) → List A × ℕ → ListResponse B
list_response read page page_size (items, total) = record {
  items = map read items;
  total = total;
  page = page;
  page_size = page_size;
}
