-- ===== src/SourceData.antt =====
-- The «source data» text format of an estimate (web/app.js): records that end with `*`, fields that
-- are separated by an apostrophe, and the lines Э, Ю, F and К around the positions.
pub mod Escape
pub mod Header
