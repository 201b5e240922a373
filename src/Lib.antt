-- ===== src/Lib.antt =====
-- The browser client of the estimate editor (web/app.js, web/login.js): the parts of it that
-- compute, with the theorems that make them correct.
--
-- The client keeps one global `state`. Its tree of constructions, objects and estimates comes from the
-- server; open estimates are edited as lists of lines or as a text in the format "source data"; a
-- buffer collects positions for later use. A dialog over the tree chooses the estimates from which
-- the user's own positions are imported. The parts meet in three places: the dialog and the header
-- lines read the tree, quantities of lines are expressions read by the quantity parser, and the fields
-- of the text format are escaped and split by the same functions everywhere.
--
-- Files and code:
--   Common/...            strings as lists of UTF-16 units, JavaScript arrays and sets, white space,
--                         decimal numerals, splitting and joining, positions in arrays
--   Number, Number/Naturals
--                         the floating-point numbers as an interface, and natural numbers to run it
--   ProjectTree           `state.constructions`, `state.objects`, `state.estimates`;
--                         `collectEstimateIdsForScope`
--   ProjectTree/Progress  `getScopeCalcEstimateStats`, `setTreeCalcProgress`
--   UserPositionImport    `userPositionImportState`, `applyUserPositionImportSelection`,
--                         `collectUserPositionImportEstimateIds` and their helpers
--   Quantity              `tokenizeSourceDataQuantityExpression`,
--                         `evaluateSourceDataQuantityExpression`, `parseSourceDataQuantity`
--   SourceData/Escape     `escapeEstimateTextField`, `unescapeEstimateTextField`,
--                         `splitEstimateTextLine`
--   SourceData/Header     `serializeSourceDataEstimateHeaderLine`,
--                         `serializeSourceDataConstructionLine` and the two functions that read them
--   EditorLines           the buffer (`upsertGSNInBuffer` and the three others) and the lines of an
--                         open estimate (`upsertUserPositionInEstimate`, `moveEstimateLine`,
--                         `deleteEstimateLine`, `addEstimateLine`, ...); EditorLines/Keys has the keys
--                         of the controls (`userPositionEstimateKey`)
--   PositionCode          `extractSourceDataPositionCipher`,
--                         `extractSourceDataPositionOriginalCode`,
--                         `extractSourceDataDeterminantAssignment`
--   District              `parseDistrictValue`, `formatDistrictValue` and their normal forms
--   LoginRedirect         `normalizeNext` of web/login.js
--   EditorTabs            `closeEstimateFromEditor`, as two steps with other handlers between them
--   EstimateLocks         `refreshEstimateLocks`, `acquireEstimateLock`, `kickEstimateFromEditor`,
--                         `refreshOwnedEstimateLocks` and the other functions on locks
--   Licenses              the licences of the sections, `applyLicenseGate` and the functions it calls
--   TreeEditing           deleting from the tree and the editor, `pruneOpenEstimates`,
--                         `saveConstructionDialog`
--   UserPositions         loading, changing, deleting and importing the user's own positions
--   Calculation           which lines the server calculates, `estimateCalcProgress`,
--                         `updateCalcProgressTarget`, `createEstimateCalcStatusResolver`
--   EditorLines/Controls  `handleAddPrimitiveClick`, `onAddPrimitiveQuantityChange`,
--                         `parseQuantityInput`
--   Opening               `openEstimateInEditor`, as steps with other openings between them
--   HtmlText              `escapeHTML` of web/app.js and web/shared.js
--
-- State is passed explicitly: an operation takes the state that it reads and returns the state that it
-- leaves. Exceptions are values of a result type. An object that is shared by reference (an open
-- estimate) is its index in its array.
--
-- Fuel: the tokenizer takes one unit for each character of its text, since each round of its loop
-- consumes at least one; the evaluator takes one unit for each call, and four for each token and four
-- more are enough, since every call but a few consumes a token. The search for an original code takes
-- one for each character and one more: every round consumes two characters.
--
-- Numbers: floating-point arithmetic is the interface `Arithmetic`, and nothing is assumed of its
-- operations. Where the code only handles whole numbers that it made itself, they are natural numbers.
-- Numbers from 2 ^ 53 on are not all held exactly: in the line Э and in a district, what the code makes
-- of them is a parameter, and so is the value of a numeral that is not made of digits only.
--
-- Not modelled: rendering and reading of the page, the storage and, but for deletions, the requests
-- to the server that follow a change, the messages shown, and the parts of web/app.js that are not named above.
pub mod Common
pub mod ProjectTree
pub mod UserPositionImport
pub mod Number
pub mod Quantity
pub mod SourceData
pub mod EditorLines
pub mod LoginRedirect
pub mod PositionCode
pub mod District
pub mod EditorTabs
pub mod EstimateLocks
pub mod Licenses
pub mod TreeEditing
pub mod UserPositions
pub mod Calculation
pub mod Opening
pub mod HtmlText
