-- ===== src/Connect/Recent.antt =====
-- The saved hosts of the step "Show All": the search and the pages.
use pair_admin.Base.{
  ℕ, zero, suc, ◌+◌, ◌-◌, ◌*◌, ◌/◌, ◌≤◌, ◌<◌, ◌≡◌, ◌↔◌, refl, Bool, true, not, List, [], ◌++◌, Text,
  codes, if◌then◌else◌, is_truthy, trim, to_lower, includes, filter, length, take, drop, arith,
  length-take, length-drop, sym, ap, ◌∙◌, take-drop, drop-drop, drop-all,
}
use Prim.Native.Nat.{min, max}
use pair_admin.Terminal.{TabKind}
use pair_admin.Connect.Wizard.{RemoteHostStatus}

abbrev recent_all_page_size : ℕ
recent_all_page_size = 20

abbrev pub kind_text : TabKind → Text
kind_text TabKind.local = codes "local"
kind_text TabKind.ssh = codes "ssh"
kind_text TabKind.winrm = codes "winrm"

-- The text of an entry that is searched.
abbrev haystack : RemoteHostStatus → Text
haystack st =
    let h = st.host in
    h.name ++ codes " " ++ h.username ++ codes "@" ++ h.host ++ codes " " ++ kind_text h.kind

abbrev pub matches : Text → RemoteHostStatus → Bool
matches search st =
    let q = to_lower (trim search) in
    if not (is_truthy q) then true else includes (to_lower (haystack st)) q

abbrev pub filtered_recent_hosts : Text → List RemoteHostStatus → List RemoteHostStatus
filtered_recent_hosts search hosts = filter (matches search) hosts

-- `Math.max(1, Math.ceil(n / 20))`
abbrev pub recent_all_page_count : ℕ → ℕ
recent_all_page_count n = max 1 ((n + 19) / 20)

abbrev pub clamped_recent_page : ℕ → ℕ → ℕ
clamped_recent_page page n = min page (recent_all_page_count n - 1)

-- `xs.slice(i * 20, (i + 1) * 20)`
abbrev page_of {ℓ} : {A : Type ℓ} → ℕ → List A → List A
page_of i xs = take recent_all_page_size (drop (i * recent_all_page_size) xs)

unfoldable pub paged_recent_hosts : Text → ℕ → List RemoteHostStatus → List RemoteHostStatus
paged_recent_hosts search page hosts =
    let found = filtered_recent_hosts search hosts in
    page_of (clamped_recent_page page (length found)) found

-- The buttons below the list: from the page, and the number of hosts found.
unfoldable pub previous_page : ℕ → ℕ
previous_page page = page - 1

unfoldable pub next_page : ℕ → ℕ → ℕ
next_page n page = min (recent_all_page_count n - 1) (page + 1)

-- `k` pages of the list on display, from the i-th on, one after the other.
abbrev pub shown_pages : Text → List RemoteHostStatus → ℕ → ℕ → List RemoteHostStatus
shown_pages search hosts i zero = []
shown_pages search hosts i (suc k) =
    paged_recent_hosts search i hosts ++ shown_pages search hosts (i + 1) k

paged-page_of :
    (search : Text) (i : ℕ) (hosts : List RemoteHostStatus)
    → i < recent_all_page_count (length (filtered_recent_hosts search hosts))
    → paged_recent_hosts search i hosts ≡ page_of i (filtered_recent_hosts search hosts)
unfolding paged_recent_hosts
paged-page_of search i hosts h =
    let same : clamped_recent_page i (length (filtered_recent_hosts search hosts)) ≡ i =
      omega arith in
    rw same refl

shown_pages-drop :
    (search : Text) (hosts : List RemoteHostStatus) (i k : ℕ)
    → i + k ≡ recent_all_page_count (length (filtered_recent_hosts search hosts))
    → shown_pages search hosts i k ≡ drop (i * 20) (filtered_recent_hosts search hosts)
shown_pages-drop search hosts i zero h =
    sym (drop-all (i * 20) (filtered_recent_hosts search hosts) (omega arith))
shown_pages-drop search hosts i (suc k) h =
    let found = filtered_recent_hosts search hosts in
    let next : i * 20 + 20 ≡ (i + 1) * 20 = omega arith in
    rw
      (
        paged-page_of search i hosts (omega arith),
        shown_pages-drop search hosts (i + 1) k (omega arith),
      )
      (ap (λ n. take 20 (drop (i * 20) found) ++ drop n found) (sym next)
        ∙ ap (take 20 (drop (i * 20) found) ++◌) (sym (drop-drop 20 (i * 20) found))
        ∙ take-drop 20 (drop (i * 20) found))

-- Leafing through all pages shows every host that the search finds, once and in order.
pub shown_pages-all :
    (search : Text) (hosts : List RemoteHostStatus)
    → shown_pages search hosts 0
        (recent_all_page_count (length (filtered_recent_hosts search hosts)))
      ≡ filtered_recent_hosts search hosts
shown_pages-all search hosts = shown_pages-drop search hosts 0 _ (omega arith)

-- Whatever page was reached under an earlier search: at most twenty hosts are shown, and none only if the
-- search finds none.
pub paged-length :
    (search : Text) (page : ℕ) (hosts : List RemoteHostStatus)
    → (length (paged_recent_hosts search page hosts) ≤ 20)
      × ((length (paged_recent_hosts search page hosts) ≡ 0)
          ↔ (length (filtered_recent_hosts search hosts) ≡ 0))
unfolding paged_recent_hosts
paged-length search page hosts =
    let found = filtered_recent_hosts search hosts in
    let i = clamped_recent_page page (length found) in
    let taken = length-take 20 (drop (i * 20) found) in
    let left = length-drop (i * 20) found in
    (omega (arith, taken, left), (λ h. omega (arith, taken, left), λ h. omega (arith, taken, left)))
