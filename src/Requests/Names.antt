-- ===== src/Requests/Names.antt =====
-- The names of the steps that `plan_request` of src/kdiff/analysis/requests.py adds.
use knowledge_diffusion.Base.{Key}

abbrev pub subject_step : Key
subject_step = 0

abbrev pub window_step : Key
window_step = 1

abbrev pub paths_step : Key
paths_step = 2

abbrev pub authors_step : Key
authors_step = 3

abbrev pub papers_step : Key
papers_step = 4

abbrev pub after_step : Key
after_step = 5

abbrev pub before_window_step : Key
before_window_step = 6

abbrev pub before_step : Key
before_step = 7

abbrev pub comparison_step : Key
comparison_step = 8

abbrev pub relations_step : Key
relations_step = 9

abbrev pub sites_step : Key
sites_step = 10

abbrev pub announcements_step : Key
announcements_step = 11

abbrev pub trace_step : Key
trace_step = 12

abbrev pub timeline_step : Key
timeline_step = 13

abbrev pub provenance_step : Key
provenance_step = 14
